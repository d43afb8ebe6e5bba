-- ===== src/Volume/Counter.antt =====
-- The counter of free clusters against the table.
use level_fs.Base.{
  ℕ, zero, suc, ◌+◌, ◌-◌, ◌*◌, ◌%◌, ◌^◌, ◌<◌, ◌≤◌, ◌==◌, ltb, leb, if◌then◌else◌, ◌≡◌, ◌≢◌, refl,
  ◌∙◌, sym, ap, some, Bool, true, false, ◌&&◌, not, arith, inl, inr, Bool-cases, ==_refl,
}
use level_fs.Volume.Hlat.{IsHlat}
use level_fs.Volume.Flat.{IsData, layout, layout-is_reserved_cluster}
use level_fs.Volume.Table.{get_lab_entry}
use level_fs.Volume.Alloc.{done, is_free, free_cluster, alloc_cluster_for_level}
use level_fs.Volume.Taking.{IsSmall, Sets, taken_entry}
use level_fs.Volume.Steps.{free_cluster-Sets}
use level_fs.Volume.Search.{found, alloc_cluster_for_level-IsAllocation}
use level_fs.Volume.{SuperBlock, LabEntry, Volume, free_entry, is_reserved_cluster}

-- A cluster below the end that is neither reserved nor in use.
abbrev pub is_available : Volume → ℕ → Bool
is_available v c = not (is_reserved_cluster v.sb c) && is_free (get_lab_entry v c)

unfoldable pub count_true : (ℕ → Bool) → ℕ → ℕ
count_true p zero = 0
count_true p (suc n) = (if p n then 1 else 0) + count_true p n

-- The counter says how many clusters are available.
abbrev pub IsCounted : Volume → Type 0
IsCounted v = v.sb.total_free_clusters ≡ count_true (is_available v) v.sb.total_clusters

count_same :
    (p q : ℕ → Bool) (n : ℕ) → ((i : ℕ) → i < n → q i ≡ p i) → count_true q n ≡ count_true p n
unfolding count_true
count_same p q zero h = refl
count_same p q (suc n) h = ground (arith, h n, count_same p q n (λ i b. h i (omega arith)))

count_changed :
    (p q : ℕ → Bool) (k n : ℕ)
    → ((i : ℕ) → i < n → q i ≡ (if k == i then false else p i))
    → p k ≡ true
    → k < n
    → count_true q n + 1 ≡ count_true p n
unfolding count_true
count_changed p q k zero h e b = absurd (omega arith)
count_changed p q k (suc n) h e b = elim (Bool-cases (k == n)) [
  | inl last ↦
      let same : k ≡ n = ground arith in
      let rest = count_same p q n (λ i below. ground (arith, h i)) in ground (arith, h n, rest)
  | inr earlier ↦
      let rest = count_changed p q k n (λ i below. h i (omega arith)) e (ground arith) in
      ground (arith, h n, rest)
]

pub count_range :
    (p : ℕ → Bool) (lo k n : ℕ)
    → ((i : ℕ) → i < n → p i ≡ (leb lo i && ltb i (lo + k)))
    → count_true p n ≡ (if ltb n lo then 0 else if ltb n (lo + k) then n - lo else k)
unfolding count_true
count_range p lo k zero h = ground arith
count_range p lo k (suc n) h = ground (arith, h n, count_range p lo k n (λ i b. h i (omega arith)))

same_layout-total :
    (sb sb' : SuperBlock) → layout sb' ≡ layout sb → sb'.total_clusters ≡ sb.total_clusters
same_layout-total sb sb' same = ap (λ (s : SuperBlock). s.total_clusters) same

same_layout-reserved :
    (sb sb' : SuperBlock) (c : ℕ)
    → layout sb' ≡ layout sb
    → is_reserved_cluster sb' c ≡ is_reserved_cluster sb c
same_layout-reserved sb sb' c same =
    sym (layout-is_reserved_cluster sb' c)
    ∙ ap (λ s. is_reserved_cluster s c) same
    ∙ layout-is_reserved_cluster sb c

-- What is available after one entry is set.
available-Sets :
    (value : LabEntry) (v w : Volume) (c d : ℕ)
    → Sets value v c w
    → IsData v.sb c
    → d < v.sb.total_clusters
    → is_available w d ≡ (if c == d then is_free value else is_available v d)
available-Sets value v w c d s dc below =
    let same = same_layout-reserved v.sb w.sb d s.layout_same in
    elim (Bool-cases (is_reserved_cluster v.sb d)) [
      | inl reserved ↦
          let other : (c == d) ≡ false = elim (Bool-cases (c == d)) [
            | inl e ↦ let at : c ≡ d = ground arith in absurd (cc (at, reserved, dc.unreserved))
            | inr e ↦ e
          ] in
          rw (same, reserved, other)
      | inr data_cluster ↦
          let dd : IsData v.sb d = record { inside = below; unreserved = data_cluster } in
          elim (Bool-cases (c == d)) [
            | inl e ↦ rw (same, data_cluster, s.reads d dd, e)
            | inr e ↦ rw (same, data_cluster, s.reads d dd, e)
          ]
    ]

taken-IsCounted :
    (level_id c : ℕ) (v w : Volume)
    → Sets (taken_entry level_id) v c w
    → IsData v.sb c
    → is_free (get_lab_entry v c) ≡ true
    → w.sb.total_free_clusters ≡ (v.sb.total_free_clusters + (2 ^ 64 - 1)) % 2 ^ 64
    → v.sb.total_free_clusters < 2 ^ 64
    → IsCounted v
    → IsCounted w
taken-IsCounted level_id c v w s dc free counted small h =
    let total = same_layout-total v.sb w.sb s.layout_same in
    let available : is_available v c ≡ true = rw (dc.unreserved, free) refl in
    let changed =
      count_changed (is_available v) (is_available w) c v.sb.total_clusters
        (λ i below. available-Sets (taken_entry level_id) v w c i s dc below) available dc.inside in
    let left : (v.sb.total_free_clusters + (2 ^ 64 - 1)) % 2 ^ 64
        ≡ count_true (is_available w) v.sb.total_clusters =
      omega (arith, changed, small, h) in
    counted ∙ left ∙ ap (count_true (is_available w)) (sym total)

-- Allocation keeps the counter of free clusters true: if it says how many clusters are available, it
-- says so after allocClusterForLevel has returned a cluster. The volume is well formed and has at most
-- 43520 clusters, the counter is below 2 ^ 64, and the fuel is for two rounds over the volume.
pub alloc_cluster_for_level-IsCounted :
    (fuel level_id c : ℕ) (v w : Volume)
    → IsSmall v.sb
    → IsHlat v
    → 2 * v.sb.total_clusters + 3 ≤ fuel
    → v.sb.total_free_clusters < 2 ^ 64
    → IsCounted v
    → alloc_cluster_for_level fuel level_id v ≡ done (c, w)
    → c ≢ 0
    → IsCounted w
alloc_cluster_for_level-IsCounted fuel level_id c v w small h enough below counted e nonzero =
    let f =
      found level_id c v w (alloc_cluster_for_level fuel level_id v)
        (alloc_cluster_for_level-IsAllocation fuel level_id v small h enough) e nonzero in
    taken-IsCounted level_id c v w f.sets f.data_cluster f.was_free f.counted below counted

-- freeCluster keeps the counter of free clusters true when the data cluster is in use, that is not
-- free already. The volume is well formed and has at most 43520 clusters, and the counter is not at
-- its last value.
pub free_cluster-IsCounted :
    (c : ℕ) (v : Volume)
    → IsSmall v.sb
    → IsHlat v
    → IsData v.sb c
    → is_free (get_lab_entry v c) ≡ false
    → v.sb.total_free_clusters + 1 < 2 ^ 64
    → IsCounted v
    → (w : Volume) × (free_cluster v c ≡ some w) × IsCounted w
free_cluster-IsCounted c v small h dc used below counted =
    let (w, freed, s, more) = free_cluster-Sets c v small h dc in
    let total = same_layout-total v.sb w.sb s.layout_same in
    let now = available-Sets free_entry v w c c s dc dc.inside in
    let was : is_available v c ≡ false = rw (dc.unreserved, used) refl in
    let available : is_available w c ≡ true = now ∙ rw (==_refl c) refl in
    let changed =
      count_changed (is_available w) (is_available v) c v.sb.total_clusters
        (λ i b. ground (arith, available-Sets free_entry v w c i s dc b, was)) available
        dc.inside in
    let right : (v.sb.total_free_clusters + 1) % 2 ^ 64
        ≡ count_true (is_available w) v.sb.total_clusters =
      omega (arith, changed, below, counted) in
    (w, freed, more ∙ right ∙ ap (count_true (is_available w)) (sym total))
