-- ===== src/Volume/Search.antt =====
-- The search of allocClusterForLevel.
use level_fs.Base.{
  ℕ, zero, suc, ◌+◌, ◌-◌, ◌%◌, ◌^◌, ◌*◌, ◌<◌, ◌≤◌, ◌==◌, ltb, leb, if◌then◌else◌, ◌≡◌, ◌≢◌, refl,
  ◌⊎◌, inl, inr, Bool, true, false, ◌&&◌, arith, Bool-cases, sym, ap, ◌∙◌, subst, ==_refl,
}
use level_fs.Volume.Hlat.{IsHlat}
use level_fs.Volume.Flat.{IsData, not_zero}
use level_fs.Volume.Reserved.{skip_past_reserved_le, skip_past_reserved-unreserved}
use level_fs.Volume.Table.{get_lab_entry}
use level_fs.Volume.Taking.{IsSmall, IsSmall-layout, Sets, taken_entry}
use level_fs.Volume.Steps.{take_cluster-Sets}
use level_fs.Volume.Alloc.{
  Outcome, done, is_free, skip_past_reserved, take_cluster, alloc_from, first_candidate,
  alloc_cluster_for_level,
}
use level_fs.Volume.{SuperBlock, Volume, is_reserved_cluster}

-- No data cluster from `lo` up to `hi` is free.
abbrev IsBusy : Volume → ℕ → ℕ → Type 0
IsBusy v lo hi = (d : ℕ) → lo ≤ d → d < hi → IsData v.sb d → is_free (get_lab_entry v d) ≡ false

-- A free cluster has been taken and counted off, and only its entry has changed.
pub record IsFound (level_id : ℕ) (v : Volume) (out : Outcome (ℕ × Volume)) (c : ℕ) (w : Volume)
    : Type 0 where
  pub ends : out ≡ done (c, w)
  pub data_cluster : IsData v.sb c
  pub was_free : is_free (get_lab_entry v c) ≡ true
  pub sets : Sets (taken_entry level_id) v c w
  pub counted : w.sb.total_free_clusters ≡ (v.sb.total_free_clusters + (2 ^ 64 - 1)) % 2 ^ 64

-- No cluster of the volume is free, the result says 0, and the volume is unchanged.
pub record IsFull (v : Volume) (out : Outcome (ℕ × Volume)) : Type 0 where
  pub ends : out ≡ done (0, v)
  pub none_free : (d : ℕ) → IsData v.sb d → is_free (get_lab_entry v d) ≡ false

abbrev pub IsAllocation : ℕ → Volume → Outcome (ℕ × Volume) → Type 0
IsAllocation level_id v out = ((c : ℕ) × (w : Volume) × IsFound level_id v out c w) ⊎ IsFull v out

if_intro :
    {A : Type 0} (P : A → Type 0) (b : Bool) (x y : A)
    → (b ≡ true → P x)
    → (b ≡ false → P y)
    → P (if b then x else y)
if_intro P true x y on_true on_false = on_true refl
if_intro P false x y on_true on_false = on_false refl

passed_over : (v : Volume) (lo c : ℕ) → IsBusy v lo c → IsBusy v lo (skip_past_reserved v.sb c)
passed_over v lo c busy d from before dd = elim (Bool-cases (ltb d c)) [
  | inl below ↦ busy d from (ground arith) dd
  | inr above ↦
      absurd
        (omega (arith, before, skip_past_reserved-unreserved v.sb c d (ground arith) dd.unreserved))
]

not_here :
    (v : Volume) (lo c at : ℕ)
    → IsBusy v lo at
    → (is_reserved_cluster v.sb at ≡ true) ⊎ (is_free (get_lab_entry v at) ≡ false)
    → IsBusy v lo (at + 1)
not_here v lo c at busy here d from before dd = elim (Bool-cases (d == at)) [
  | inl same ↦
      let e : d ≡ at = ground arith in rw e (elim here [ inl r ↦ absurd (cc) | inr taken ↦ taken ])
  | inr other ↦ busy d from (ground arith) dd
]

-- One round of the loop, by what the round finds.
round :
    (fuel level_id start c : ℕ) (wrapped : Bool) (v : Volume)
    → IsSmall v.sb
    → IsHlat v
    → (v.sb.total_clusters ≤ skip_past_reserved v.sb c
        → IsAllocation level_id v
            (if wrapped then done (0, v) else alloc_from fuel level_id start 1 true v))
    → (wrapped ≡ true → start ≤ skip_past_reserved v.sb c → IsAllocation level_id v (done (0, v)))
    → (skip_past_reserved v.sb c < v.sb.total_clusters
        → (is_reserved_cluster v.sb (skip_past_reserved v.sb c) ≡ true)
          ⊎ (is_free (get_lab_entry v (skip_past_reserved v.sb c)) ≡ false)
        → IsAllocation level_id v
            (alloc_from fuel level_id start (skip_past_reserved v.sb c + 1) wrapped v))
    → IsAllocation level_id v (alloc_from (suc fuel) level_id start c wrapped v)
unfolding alloc_from
round fuel level_id start c wrapped v small h past around onwards =
    let at = skip_past_reserved v.sb c in
    let P = IsAllocation level_id v in
    let next = alloc_from fuel level_id start (at + 1) wrapped v in
    if_intro P (leb v.sb.total_clusters at) _ _ (λ e. past (ground arith))
      (λ inside.
        if_intro P (wrapped && leb start at) _ _ (λ e. around (ground arith) (ground arith))
          (λ e.
            if_intro P (is_reserved_cluster v.sb at) next _ (λ r. onwards (ground arith) (inl r))
              (λ r.
                if_intro P (is_free (get_lab_entry v at)) (take_cluster level_id at v) next
                  (λ free.
                    let dc : IsData v.sb at = record { inside = ground arith; unreserved = r } in
                    let (w, taken, sets, counted) = take_cluster-Sets level_id at v small h dc in
                    inl (
                      at,
                      w,
                      record {
                        ends = taken;
                        data_cluster = dc;
                        was_free = free;
                        sets = sets;
                        counted = counted;
                      },
                    ))
                  (λ busy. onwards (ground arith) (inr busy)))))

-- The search from the first cluster up to `start`, after one that went from `start` to the end.
search_wrapped :
    (fuel level_id start c : ℕ) (v : Volume)
    → IsSmall v.sb
    → IsHlat v
    → v.sb.total_clusters + 1 ≤ fuel + c
    → 1 ≤ fuel
    → IsBusy v 1 c
    → IsBusy v start v.sb.total_clusters
    → IsAllocation level_id v (alloc_from fuel level_id start c true v)
search_wrapped zero level_id start c v small h enough some_fuel low high =
    absurd (omega (arith, some_fuel))
search_wrapped (suc fuel) level_id start c v small h enough some_fuel low high =
    let at = skip_past_reserved v.sb c in
    let low' = passed_over v 1 c low in
    let positive : (d : ℕ) → IsData v.sb d → 1 ≤ d =
      λ d dd. omega (arith, not_zero v.sb d dd.unreserved) in
    round fuel level_id start c true v small h
      (λ past. inr (record {
        ends = refl;
        none_free = λ d dd. low' d (positive d dd) (omega (arith, past, dd.inside)) dd;
      }))
      (λ e around. inr (record {
        ends = refl;
        none_free = λ d dd. elim (Bool-cases (ltb d at)) [
          | inl below ↦ low' d (positive d dd) (ground arith) dd
          | inr above ↦ high d (ground arith) dd.inside dd
        ];
      }))
      (λ inside here.
        search_wrapped fuel level_id start (at + 1) v small h
          (omega (arith, enough, skip_past_reserved_le v.sb c))
          (omega (arith, enough, inside, skip_past_reserved_le v.sb c))
          (not_here v 1 c at low' here) high)

search :
    (fuel level_id start c : ℕ) (v : Volume)
    → IsSmall v.sb
    → IsHlat v
    → v.sb.total_clusters + v.sb.total_clusters + 3 ≤ fuel + c
    → v.sb.total_clusters + 2 ≤ fuel
    → IsBusy v start c
    → IsAllocation level_id v (alloc_from fuel level_id start c false v)
search zero level_id start c v small h enough some_fuel busy = absurd (omega (arith, some_fuel))
search (suc fuel) level_id start c v small h enough some_fuel busy =
    let at = skip_past_reserved v.sb c in
    let busy' = passed_over v start c busy in
    round fuel level_id start c false v small h
      (λ past.
        search_wrapped fuel level_id start 1 v small h (omega (arith, some_fuel))
          (omega (arith, some_fuel)) (λ d from before dd. absurd (omega (arith, from, before)))
          (λ d from before dd. busy' d from (omega (arith, before, past)) dd))
      (λ e around. absurd (cc))
      (λ inside here.
        search fuel level_id start (at + 1) v small h
          (omega (arith, enough, skip_past_reserved_le v.sb c))
          (omega (arith, enough, inside, skip_past_reserved_le v.sb c))
          (not_here v start c at busy' here))

-- With fuel for two rounds over the volume, the search of allocClusterForLevel ends. Either it
-- returns an unreserved cluster of the volume that was free, and the volume differs as far as
-- getLABEntry shows in that cluster's entry alone, which ends a chain of the level, while the counter
-- of free clusters goes down by one, modulo 2 ^ 64; or it returns 0, the volume is unchanged and no unreserved cluster is free. The volume has at most 43520 clusters,
-- and its table is well formed.
pub alloc_cluster_for_level-IsAllocation :
    (fuel level_id : ℕ) (v : Volume)
    → IsSmall v.sb
    → IsHlat v
    → 2 * v.sb.total_clusters + 3 ≤ fuel
    → IsAllocation level_id v (alloc_cluster_for_level fuel level_id v)
unfolding alloc_cluster_for_level
alloc_cluster_for_level-IsAllocation fuel level_id v small h enough =
    search fuel level_id (first_candidate v) (first_candidate v) v small h (omega (arith, enough))
      (omega (arith, enough)) (λ d from before dd. absurd (omega (arith, from, before)))

result_of : (ℕ × Volume) → Outcome (ℕ × Volume) → ℕ × Volume
result_of default (done r) = r
result_of default out = default

pub found :
    (level_id c : ℕ) (v w : Volume) (out : Outcome (ℕ × Volume))
    → IsAllocation level_id v out
    → out ≡ done (c, w)
    → c ≢ 0
    → IsFound level_id v out c w
unfolding result_of
found level_id c v w out (inl (c1, w1, f)) e nonzero =
    let same : (c1, w1) ≡ (c, w) = ap (result_of (0, v)) (sym f.ends ∙ e) in
    subst (λ (r : ℕ × Volume). IsFound level_id v out r.0 r.1) same f
found level_id c v w out (inr full) e nonzero =
    let same : (0, v) ≡ (c, w) = ap (result_of (0, v)) (sym full.ends ∙ e) in
    absurd (nonzero (sym (ap (λ (r : ℕ × Volume). r.0) same)))

-- What has been taken is not handed out again: two allocations in a row, with fuel for two rounds
-- each and neither of them finding the volume full, return different clusters. The volume is well
-- formed and has at most 43520 clusters.
pub alloc_cluster_for_level-apart :
    (fuel level_id level_id' c c' : ℕ) (v w w' : Volume)
    → IsSmall v.sb
    → IsHlat v
    → 2 * v.sb.total_clusters + 3 ≤ fuel
    → alloc_cluster_for_level fuel level_id v ≡ done (c, w)
    → c ≢ 0
    → alloc_cluster_for_level fuel level_id' w ≡ done (c', w')
    → c' ≢ 0
    → c ≢ c'
alloc_cluster_for_level-apart fuel level_id level_id' c c' v w w' small h enough e1 n1 e2 n2 same =
    let first =
      found level_id c v w _ (alloc_cluster_for_level-IsAllocation fuel level_id v small h enough)
        e1 n1 in
    let small' = IsSmall-layout v.sb w.sb first.sets.layout_same small in
    let total = ap (λ (sb : SuperBlock). sb.total_clusters) first.sets.layout_same in
    let enough' : 2 * w.sb.total_clusters + 3 ≤ fuel = omega (arith, enough, total) in
    let second =
      found level_id' c' w w' _
        (alloc_cluster_for_level-IsAllocation fuel level_id' w small' first.sets.table enough') e2
        n2 in
    let reads = first.sets.reads c first.data_cluster in
    let taken : get_lab_entry w c ≡ taken_entry level_id = rw (reads, ==_refl c) refl in
    let busy : is_free (get_lab_entry w c) ≡ false = rw taken refl in
    let free : is_free (get_lab_entry w c) ≡ true = rw same second.was_free in absurd (cc)
