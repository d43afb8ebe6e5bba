-- ===== src/Volume/Reserved.antt =====
-- isReservedCluster and skipPastReserved.
use level_fs.Base.{
  ℕ, ◌+◌, ◌≤◌, ◌==◌, leb, if◌then◌else◌, ◌≡◌, refl, Bool, true, false, ◌&&◌, ◌||◌, arith,
}
use level_fs.Volume.Alloc.{skip_past_reserved}
use level_fs.Volume.{SuperBlock, in_region, journal_clusters, is_reserved_cluster}

pub skip_past_reserved_le : (sb : SuperBlock) (c : ℕ) → c ≤ skip_past_reserved sb c
unfolding skip_past_reserved
skip_past_reserved_le sb c = ground arith

-- The tests that an unreserved cluster fails.
record Unreserved (sb : SuperBlock) (d : ℕ) : Type 0 where
  zero_not : (d == 0) ≡ false
  backup_not : (d == sb.backup_sb_cluster) ≡ false
  lit_not : in_region d sb.lit_start_cluster sb.lit_clusters ≡ false
  pool_not : in_region d sb.lab_pool_start sb.lab_pool_clusters ≡ false
  registry_not : in_region d sb.level_registry_cluster sb.level_registry_clusters ≡ false
  journal_not : in_region d sb.journal_start_cluster (journal_clusters sb) ≡ false
  root_not : (leb sb.root_dir_cluster d && leb d (sb.root_dir_cluster + 1)) ≡ false

ors :
    (a b c d e f g : Bool)
    → (a || b || c || d || e || f || g) ≡ false
    → (a ≡ false)
      × (b ≡ false)
      × (c ≡ false)
      × (d ≡ false)
      × (e ≡ false)
      × (f ≡ false)
      × (g ≡ false)
ors a b c d e f g h = ground arith

is_reserved_cluster-Unreserved :
    (sb : SuperBlock) (d : ℕ) → is_reserved_cluster sb d ≡ false → Unreserved sb d
unfolding is_reserved_cluster
is_reserved_cluster-Unreserved sb d h =
    let (f1, f2, f3, f4, f5, f6, f7) =
      ors (d == 0) (d == sb.backup_sb_cluster) (in_region d sb.lit_start_cluster sb.lit_clusters)
        (in_region d sb.lab_pool_start sb.lab_pool_clusters)
        (in_region d sb.level_registry_cluster sb.level_registry_clusters)
        (in_region d sb.journal_start_cluster (journal_clusters sb))
        (leb sb.root_dir_cluster d && leb d (sb.root_dir_cluster + 1)) h in
    record {
      zero_not = f1;
      backup_not = f2;
      lit_not = f3;
      pool_not = f4;
      registry_not = f5;
      journal_not = f6;
      root_not = f7;
    }

if_le : (b : Bool) (x y d : ℕ) → (b ≡ true → x ≤ d) → y ≤ d → (if b then x else y) ≤ d
if_le true x y d yes_case no_case = yes_case refl
if_le false x y d yes_case no_case = no_case

-- A region that `c` lies in and a later `d` does not ends at or before `d`.
past_region : (c d s n : ℕ) → c ≤ d → in_region d s n ≡ false → in_region c s n ≡ true → s + n ≤ d
past_region c d s n from out inside = ground arith

-- skipPastReserved never jumps over a cluster that could be allocated: an unreserved cluster at or
-- after `c` is at or after the cluster it moves to.
pub skip_past_reserved-unreserved :
    (sb : SuperBlock) (c d : ℕ)
    → c ≤ d
    → is_reserved_cluster sb d ≡ false
    → skip_past_reserved sb c ≤ d
unfolding skip_past_reserved
skip_past_reserved-unreserved sb c d from h =
    let t = is_reserved_cluster-Unreserved sb d h in
    let root_test = leb sb.root_dir_cluster c && leb c (sb.root_dir_cluster + 1) in
    let l7 = if_le root_test (sb.root_dir_cluster + 2) c d (λ e. ground (arith, t.root_not)) from in
    let l6 =
      if_le (in_region c sb.journal_start_cluster (journal_clusters sb)) _ _ d
        (past_region c d sb.journal_start_cluster (journal_clusters sb) from t.journal_not) l7 in
    let l5 =
      if_le (in_region c sb.level_registry_cluster sb.level_registry_clusters) _ _ d
        (past_region c d sb.level_registry_cluster sb.level_registry_clusters from t.registry_not)
        l6 in
    let l4 =
      if_le (in_region c sb.lab_pool_start sb.lab_pool_clusters) _ _ d
        (past_region c d sb.lab_pool_start sb.lab_pool_clusters from t.pool_not) l5 in
    let l3 =
      if_le (in_region c sb.lit_start_cluster sb.lit_clusters) _ _ d
        (past_region c d sb.lit_start_cluster sb.lit_clusters from t.lit_not) l4 in
    let l2 = if_le (c == sb.backup_sb_cluster) (c + 1) _ d (λ e. ground (arith, t.backup_not)) l3 in
    if_le (c == 0) 1 _ d (λ e. ground (arith, t.zero_not)) l2
