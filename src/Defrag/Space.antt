-- ===== src/Defrag/Space.antt =====
-- The search for contiguous space.
use level_fs.Base.{
  ℕ, zero, suc, ◌+◌, ◌-◌, ◌≤◌, ◌<◌, ◌≡◌, ◌≢◌, refl, sym, ap, subst, ◌∙◌, ◌==◌, ltb, leb,
  if◌then◌else◌, true, false, arith, Bool-cases, inl, inr,
}
use level_fs.Defrag.{DefragVolume, lat_free, get_link, space_from, find_contiguous_space}

-- The clusters from one on are free.
abbrev pub IsFree : DefragVolume → ℕ → ℕ → Type 0
IsFree v start count = (i : ℕ) → i < count → get_link v (start + i) ≡ lat_free

-- What a search from `low` to before `high` gives.
pub record IsSpace (v : DefragVolume) (low high needed r : ℕ) : Type 0 where
  pub found : r ≢ 0
  pub above : low ≤ r
  pub fits : r + needed ≤ high
  pub free : IsFree v r needed

module _ (v : DefragVolume) (low needed : ℕ) where
  -- The run of free clusters before the next one.
  record Run (c consecutive candidate : ℕ) : Type 0 where
    short : consecutive < needed
    free : IsFree v candidate consecutive
    ends : 0 < consecutive → (candidate + consecutive ≡ c) × (low ≤ candidate)
    from : low ≤ c

  extend :
      (c consecutive candidate : ℕ)
      → Run c consecutive candidate
      → get_link v c ≡ lat_free
      → let candidate' = if consecutive == 0 then c else candidate in
        (IsFree v candidate' (suc consecutive))
        × (candidate' + suc consecutive ≡ c + 1)
        × (low ≤ candidate')
  extend c consecutive candidate h free = elim (Bool-cases (consecutive == 0)) [
    | inl none_yet ↦
        let nothing : consecutive ≡ 0 = ground (arith, none_yet) in
        rw none_yet (
          (λ i below. let at : c + i ≡ c = omega (arith, below, nothing) in rw at free),
          omega (arith, nothing),
          h.from,
        )
    | inr some_yet ↦
        let more : 0 < consecutive = ground (arith, some_yet) in
        let (end, above) = h.ends more in
        rw some_yet (
          (λ i below. elim (Bool-cases (ltb i consecutive)) [
            | inl old ↦ h.free i (ground (arith, old))
            | inr new ↦ let at : candidate + i ≡ c = ground (arith, new, below, end) in rw at free
          ]),
          omega (arith, end),
          above,
        )
  ]

  -- What follows a free cluster that is not enough, and one that is taken.
  Run-free :
      (c consecutive candidate : ℕ)
      → Run c consecutive candidate
      → (get_link v c == lat_free) ≡ true
      → leb needed (suc consecutive) ≡ false
      → Run (c + 1) (suc consecutive) (if consecutive == 0 then c else candidate)
  Run-free c consecutive candidate h free short =
      let (run_free, end, above) = extend c consecutive candidate h (ground (arith, free)) in
      record {
        short = ground (arith, short);
        free = run_free;
        ends = λ _. (end, above);
        from = omega (arith, h.from);
      }

  Run-empty : (c candidate : ℕ) → 0 < needed → low ≤ c → Run c 0 candidate
  Run-empty c candidate some_needed from = record {
    short = some_needed;
    free = λ i below. absurd (omega (arith, below));
    ends = λ e. absurd (omega (arith, e));
    from = from;
  }

  Run-taken : (c consecutive candidate : ℕ) → Run c consecutive candidate → Run (c + 1) 0 candidate
  Run-taken c consecutive candidate h =
      Run-empty (c + 1) candidate (omega (arith, h.short)) (omega (arith, h.from))

  space_from-free :
      (left c consecutive candidate : ℕ)
      → (get_link v c == lat_free) ≡ true
      → space_from v needed (suc left) c consecutive candidate ≡ (
          if leb needed (suc consecutive)
          then (if consecutive == 0 then c else candidate)
          else space_from v needed left
              (c + 1)
              (suc consecutive)
              (if consecutive == 0 then c else candidate))
  unfolding space_from
  space_from-free left c consecutive candidate free = rw free refl

  space_from-taken :
      (left c consecutive candidate : ℕ)
      → (get_link v c == lat_free) ≡ false
      → space_from v needed (suc left) c consecutive candidate
        ≡ space_from v needed left (c + 1) 0 candidate
  unfolding space_from
  space_from-taken left c consecutive candidate taken = rw taken refl

  space_from-IsSpace :
      (left c consecutive candidate : ℕ)
      → Run c consecutive candidate
      → space_from v needed left c consecutive candidate ≢ 0
      → IsSpace v low (c + left) needed (space_from v needed left c consecutive candidate)
  space_from-IsSpace zero c consecutive candidate h found =
      absurd (found (unfold space_from in refl))
  space_from-IsSpace (suc left) c consecutive candidate h found =
      let more : c + 1 + left ≡ c + suc left = omega arith in
      elim (Bool-cases (get_link v c == lat_free)) [
        | inl free ↦
            let candidate' = if consecutive == 0 then c else candidate in
            let (run_free, end, above) = extend c consecutive candidate h (ground (arith, free)) in
            let next = space_from-free left c consecutive candidate free in
            elim (Bool-cases (leb needed (suc consecutive))) [
              | inl enough ↦
                  let fits : needed ≤ suc consecutive = ground (arith, enough) in
                  let result : space_from v needed (suc left) c consecutive candidate ≡ candidate' =
                    next ∙ rw enough refl in
                  subst (λ (r : ℕ). IsSpace v low (c + suc left) needed r) (sym result)
                    (record {
                      found = λ e. found (result ∙ e);
                      above = above;
                      fits = omega (arith, end, fits);
                      free = λ i below. run_free i (omega (arith, below, fits));
                    })
              | inr short ↦
                  let rest = space_from v needed left (c + 1) (suc consecutive) candidate' in
                  let result : space_from v needed (suc left) c consecutive candidate ≡ rest =
                    next ∙ rw short refl in
                  subst (λ (r : ℕ). IsSpace v low (c + suc left) needed r) (sym result)
                    (subst (λ (n : ℕ). IsSpace v low n needed rest) more
                      (space_from-IsSpace left (c + 1) (suc consecutive) candidate'
                        (Run-free c consecutive candidate h free short) (λ e. found (result ∙ e))))
            ]
        | inr taken ↦
            let result = space_from-taken left c consecutive candidate taken in
            subst (λ (r : ℕ). IsSpace v low (c + suc left) needed r) (sym result)
              (subst
                (λ (n : ℕ). IsSpace v low n needed (space_from v needed left (c + 1) 0 candidate))
                more
                (space_from-IsSpace left (c + 1) 0 candidate (Run-taken c consecutive candidate h)
                  (λ e. found (result ∙ e))))
      ]

-- A search that gives a number other than 0 gives the first of as many free clusters as are needed, at
-- least one, between the start of the data and the end of the volume.
pub find_contiguous_space-found :
    (v : DefragVolume) (needed : ℕ)
    → 0 < needed
    → find_contiguous_space v needed ≢ 0
    → v.data_start ≤ v.total_clusters
    → IsSpace v v.data_start v.total_clusters needed (find_contiguous_space v needed)
unfolding find_contiguous_space
find_contiguous_space-found v needed some_needed found inside =
    let left = v.total_clusters - v.data_start in
    let whole : v.data_start + left ≡ v.total_clusters = omega (arith, inside) in
    subst (λ (n : ℕ). IsSpace v v.data_start n needed (space_from v needed left v.data_start 0 0))
      whole
      (space_from-IsSpace v v.data_start needed left v.data_start 0 0
        (Run-empty v v.data_start needed v.data_start 0 some_needed (omega arith)) found)

module _ (v : DefragVolume) (low needed s : ℕ) (positive : 0 < low) (run : IsFree v s needed) where
  -- A cluster that is taken ends before the run that is looked for, or lies before it.
  taken_outside :
      (c consecutive : ℕ)
      → (get_link v c == lat_free) ≡ false
      → c ≤ s + consecutive
      → consecutive < needed
      → c + 1 ≤ s
  taken_outside c consecutive taken inside short = elim (Bool-cases (ltb c s)) [
    | inl before ↦ ground (arith, before)
    | inr behind ↦
        let low_end : s ≤ c = ground (arith, behind) in
        let at : s + (c - s) ≡ c = omega (arith, low_end) in
        let free = ap (get_link v) at in
        absurd (ground (arith, taken, free, run (c - s) (omega (arith, low_end, inside, short))))
  ]

  space_from_positive :
      (left c consecutive candidate : ℕ)
      → s + needed ≤ c + left
      → Run v low needed c consecutive candidate
      → c ≤ s + consecutive
      → space_from v needed left c consecutive candidate ≢ 0
  space_from_positive zero c consecutive candidate high h inside e =
      omega (arith, high, h.short, inside)
  space_from_positive (suc left) c consecutive candidate high h inside e =
      elim (Bool-cases (get_link v c == lat_free)) [
        | inl free ↦
            let candidate' = if consecutive == 0 then c else candidate in
            let (run_free, end, above) =
              extend v low needed c consecutive candidate h (ground (arith, free)) in
            let next = space_from-free v low needed left c consecutive candidate free in
            elim (Bool-cases (leb needed (suc consecutive))) [
              | inl enough ↦
                  let zero_first : candidate' ≡ 0 = sym (next ∙ rw enough refl) ∙ e in
                  omega (arith, zero_first, above, positive)
              | inr short ↦
                  let rest = space_from v needed left (c + 1) (suc consecutive) candidate' in
                  space_from_positive left (c + 1) (suc consecutive) candidate'
                    (omega (arith, high))
                    (Run-free v low needed c consecutive candidate h free short)
                    (omega (arith, inside)) (sym (next ∙ rw short refl) ∙ e)
            ]
        | inr taken ↦
            let outside = taken_outside c consecutive taken inside h.short in
            space_from_positive left (c + 1) 0 candidate (omega (arith, high))
              (Run-taken v low needed c consecutive candidate h) (omega (arith, outside))
              (sym (space_from-taken v low needed left c consecutive candidate taken) ∙ e)
      ]

-- If somewhere between the start of the data and the end of the volume as many clusters as are needed,
-- at least one, are free in a row, then the search finds such a place: the number it gives is not 0, and
-- the clusters needed from there on are free and lie in that range; if the data does not start at 0.
pub find_contiguous_space-IsSpace :
    (v : DefragVolume) (needed s : ℕ)
    → 0 < v.data_start
    → 0 < needed
    → v.data_start ≤ s
    → s + needed ≤ v.total_clusters
    → IsFree v s needed
    → IsSpace v v.data_start v.total_clusters needed (find_contiguous_space v needed)
find_contiguous_space-IsSpace v needed s positive some_needed low high run =
    let left = v.total_clusters - v.data_start in
    let found : space_from v needed left v.data_start 0 0 ≢ 0 =
      space_from_positive v v.data_start needed s positive run left v.data_start 0 0
        (omega (arith, low, high))
        (Run-empty v v.data_start needed v.data_start 0 some_needed (omega arith))
        (omega (arith, low)) in
    find_contiguous_space-found v needed some_needed (unfold find_contiguous_space in found)
      (omega (arith, low, high))
