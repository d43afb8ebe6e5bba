-- ===== src/Levels/Filling.antt =====
-- Filling a free place of the registry.
use level_fs.Base.{
  ℕ, ◌≤◌, ◌≡◌, refl, sym, ap, subst, ◌∙◌, ◌==◌, ==_refl, ltb, if◌then◌else◌, List, [], ◌∷◌, none,
  some, Bool, true, false, ◌||◌, not, all, All, arith, Bool-cases, Option-cases, inl, inr,
}
use level_fs.Levels.{
  LevelDescriptor, Registry, is_active, sectors_of, find_in_sector, find_in, has_id, is_free_place,
  fill_in_sector, with_sector, fill_in,
}

-- An active level's id has been given out.
abbrev pub below : ℕ → LevelDescriptor → Bool
below next d = not (is_active d) || ltb d.level_id next

abbrev pub Numbered : ℕ → (ℕ → List LevelDescriptor) → ℕ → Type 0
Numbered next sectors k = all (below next) (sectors k) ≡ true

-- The ids of the registry's active levels are below the next one.
pub record IsNumbered (r : Registry) (chain : List ℕ) : Type 0 where
  pub ids : All (Numbered r.next_level_id r.sectors) (sectors_of chain)

pub below_more :
    (n m : ℕ) (ds : List LevelDescriptor)
    → n ≤ m
    → all (below n) ds ≡ true
    → all (below m) ds ≡ true
below_more n m [] le h = refl
below_more n m (d ∷ ds) le h =
    let head : below m d ≡ true = ground (arith, h, le) in
    let tail : all (below n) ds ≡ true = ground (arith, h) in
    rw (head, below_more n m ds le tail) refl

pub All-more :
    (n m : ℕ) (sectors : ℕ → List LevelDescriptor) (ks : List ℕ)
    → n ≤ m
    → All (Numbered n sectors) ks
    → All (Numbered m sectors) ks
All-more n m sectors [] le h = tt
All-more n m sectors (k ∷ ks) le (h, hs) =
    (below_more n m (sectors k) le h, All-more n m sectors ks le hs)

pub find_in_sector-below :
    (n : ℕ) (ds : List LevelDescriptor)
    → all (below n) ds ≡ true
    → find_in_sector (has_id n) ds ≡ none
unfolding find_in_sector
find_in_sector-below n [] h = refl
find_in_sector-below n (d ∷ ds) h =
    let other : has_id n d ≡ false = ground (arith, h) in
    let tail : all (below n) ds ≡ true = ground (arith, h) in
    rw other (find_in_sector-below n ds tail)

-- No sector has what is looked for.
abbrev pub Absent : (LevelDescriptor → Bool) → (ℕ → List LevelDescriptor) → ℕ → Type 0
Absent p sectors k = find_in_sector p (sectors k) ≡ none

pub Numbered-Absent :
    (n : ℕ) (sectors : ℕ → List LevelDescriptor) (ks : List ℕ)
    → All (Numbered n sectors) ks
    → All (Absent (has_id n) sectors) ks
Numbered-Absent n sectors [] h = tt
Numbered-Absent n sectors (k ∷ ks) (h, hs) =
    (find_in_sector-below n (sectors k) h, Numbered-Absent n sectors ks hs)

pub find_in-Absent :
    (p : LevelDescriptor → Bool) (sectors : ℕ → List LevelDescriptor) (ks : List ℕ)
    → find_in p sectors ks ≡ none
    → All (Absent p sectors) ks
unfolding find_in
find_in-Absent p sectors [] h = tt
find_in-Absent p sectors (k ∷ ks) h = elim (Option-cases (find_in_sector p (sectors k))) [
  | inr (d, e) ↦ cc (rw (e, find_in) at h)
  | inl e ↦ (e, find_in-Absent p sectors ks (rw (e, find_in) at h))
]

module _ (fill : LevelDescriptor → LevelDescriptor) where
  pub fill_in_sector-find :
      (p : LevelDescriptor → Bool) (ds ds' : List LevelDescriptor)
      → fill_in_sector fill ds ≡ some ds'
      → ((d : LevelDescriptor) → p (fill d) ≡ true)
      → find_in_sector p ds ≡ none
      → (d : LevelDescriptor) × (find_in_sector p ds' ≡ some (fill d))
  unfolding fill_in_sector find_in_sector
  fill_in_sector-find p [] ds' h pass absent = cc
  fill_in_sector-find p (d ∷ ds) ds' h pass absent = elim (Bool-cases (is_free_place d)) [
    | inl e ↦
        let result : fill d ∷ ds ≡ ds' = cc (rw e at h) in (d, rw (← result) (rw (pass d) refl))
    | inr e ↦ elim (Option-cases (fill_in_sector fill ds)) [
      | inl f ↦ cc (rw (e, f) at h)
      | inr (es, f) ↦
          let result : d ∷ es ≡ ds' = cc (rw (e, f) at h) in
          elim (Bool-cases (p d)) [
            | inl g ↦ cc (rw g at absent)
            | inr g ↦
                let (x, found) = fill_in_sector-find p ds es f pass (rw g at absent) in
                (x, rw (← result) (rw g found))
          ]
    ]
  ]

  pub fill_in_sector-below :
      (n m : ℕ) (ds ds' : List LevelDescriptor)
      → n ≤ m
      → fill_in_sector fill ds ≡ some ds'
      → ((d : LevelDescriptor) → below m (fill d) ≡ true)
      → all (below n) ds ≡ true
      → all (below m) ds' ≡ true
  unfolding fill_in_sector
  fill_in_sector-below n m [] ds' le h small old = cc
  fill_in_sector-below n m (d ∷ ds) ds' le h small old =
      let tail : all (below n) ds ≡ true = ground (arith, old) in
      elim (Bool-cases (is_free_place d)) [
        | inl e ↦
            let result : fill d ∷ ds ≡ ds' = cc (rw e at h) in
            rw (← result) (rw (small d, below_more n m ds le tail) refl)
        | inr e ↦ elim (Option-cases (fill_in_sector fill ds)) [
          | inl f ↦ cc (rw (e, f) at h)
          | inr (es, f) ↦
              let result : d ∷ es ≡ ds' = cc (rw (e, f) at h) in
              let head : below m d ≡ true = ground (arith, old, le) in
              rw (← result) (rw (head, fill_in_sector-below n m ds es le f small tail) refl)
        ]
      ]

  -- A sector without a free place is left as it is.
  pub fill_in_full :
      (sectors sectors' : ℕ → List LevelDescriptor) (ks : List ℕ) (j : ℕ)
      → fill_in fill sectors ks ≡ some sectors'
      → fill_in_sector fill (sectors j) ≡ none
      → sectors' j ≡ sectors j
  unfolding fill_in
  fill_in_full sectors sectors' [] j h full = cc
  fill_in_full sectors sectors' (k ∷ ks) j h full =
      elim (Option-cases (fill_in_sector fill (sectors k))) [
        | inl e ↦ fill_in_full sectors sectors' ks j (rw (e, fill_in) at h) full
        | inr (ds, e) ↦
            let result : with_sector k ds sectors ≡ sectors' = cc (rw (e, fill_in) at h) in
            let at_j : with_sector k ds sectors j ≡ sectors' j = ap (λ f. f j) result in
            elim (Bool-cases (j == k)) [
              | inl same ↦
                  let at : j ≡ k = ground (arith, same) in
                  cc (sym (ap (λ i. fill_in_sector fill (sectors i)) at) ∙ full, e)
              | inr other ↦ sym at_j ∙ rw other refl
            ]
      ]

  pub fill_in-find :
      (p : LevelDescriptor → Bool) (sectors sectors' : ℕ → List LevelDescriptor) (ks : List ℕ)
      → fill_in fill sectors ks ≡ some sectors'
      → ((d : LevelDescriptor) → p (fill d) ≡ true)
      → All (Absent p sectors) ks
      → (d : LevelDescriptor) × (find_in p sectors' ks ≡ some (fill d))
  unfolding fill_in find_in
  fill_in-find p sectors sectors' [] h pass absent = cc
  fill_in-find p sectors sectors' (k ∷ ks) h pass (here, later) =
      elim (Option-cases (fill_in_sector fill (sectors k))) [
        | inr (ds, e) ↦
            let result : with_sector k ds sectors ≡ sectors' = cc (rw (e, fill_in) at h) in
            let at_k : ds ≡ sectors' k =
              sym (ap {B = List LevelDescriptor} (λ b. if b then ds else sectors k) (==_refl k))
              ∙ ap (λ f. f k) result in
            let (d, found) = fill_in_sector-find p (sectors k) ds e pass here in
            (d, rw (sym (ap (find_in_sector p) at_k) ∙ found, find_in) refl)
        | inl e ↦
            let h' : fill_in fill sectors ks ≡ some sectors' = rw (e, fill_in) at h in
            let same = fill_in_full sectors sectors' ks k h' e in
            let (d, found) = fill_in-find p sectors sectors' ks h' pass later in
            (d, rw (ap (find_in_sector p) same ∙ here, find_in) found)
      ]

  -- Each sector after the filling is as before, or has one place filled.
  pub fill_in-below :
      (n m : ℕ) (sectors sectors' : ℕ → List LevelDescriptor) (ks : List ℕ) (j : ℕ)
      → n ≤ m
      → fill_in fill sectors ks ≡ some sectors'
      → ((d : LevelDescriptor) → below m (fill d) ≡ true)
      → Numbered n sectors j
      → Numbered m sectors' j
  unfolding fill_in
  fill_in-below n m sectors sectors' [] j le h small old = cc
  fill_in-below n m sectors sectors' (k ∷ ks) j le h small old =
      elim (Option-cases (fill_in_sector fill (sectors k))) [
        | inl e ↦ fill_in-below n m sectors sectors' ks j le (rw (e, fill_in) at h) small old
        | inr (ds, e) ↦
            let result : with_sector k ds sectors ≡ sectors' = cc (rw (e, fill_in) at h) in
            rw (← result) (elim (Bool-cases (j == k)) [
              | inl same ↦
                  let at : j ≡ k = ground (arith, same) in
                  rw same (
                    fill_in_sector-below n m (sectors k) ds le e small
                      (subst (λ (i : ℕ). Numbered n sectors i) at old))
              | inr other ↦ rw other (below_more n m (sectors j) le old)
            ])
      ]

  pub fill_in-All :
      (n m : ℕ) (sectors sectors' : ℕ → List LevelDescriptor) (ks js : List ℕ)
      → n ≤ m
      → fill_in fill sectors ks ≡ some sectors'
      → ((d : LevelDescriptor) → below m (fill d) ≡ true)
      → All (Numbered n sectors) js
      → All (Numbered m sectors') js
  fill_in-All n m sectors sectors' ks [] le h small old = tt
  fill_in-All n m sectors sectors' ks (j ∷ js) le h small (here, later) = (
    fill_in-below n m sectors sectors' ks j le h small here,
    fill_in-All n m sectors sectors' ks js le h small later,
  )

  -- A filling that finds no place: there is none.
  fill_in_sector-none :
      (ds : List LevelDescriptor)
      → fill_in_sector fill ds ≡ none
      → find_in_sector is_free_place ds ≡ none
  unfolding fill_in_sector find_in_sector
  fill_in_sector-none [] h = refl
  fill_in_sector-none (d ∷ ds) h = elim (Bool-cases (is_free_place d)) [
    | inl e ↦ cc (rw e at h)
    | inr e ↦ elim (Option-cases (fill_in_sector fill ds)) [
      | inl f ↦ rw e (fill_in_sector-none ds f)
      | inr (es, f) ↦ cc (rw (e, f) at h)
    ]
  ]

  pub fill_in-none :
      (sectors : ℕ → List LevelDescriptor) (ks : List ℕ)
      → fill_in fill sectors ks ≡ none
      → find_in is_free_place sectors ks ≡ none
  unfolding fill_in find_in
  fill_in-none sectors [] h = refl
  fill_in-none sectors (k ∷ ks) h = elim (Option-cases (fill_in_sector fill (sectors k))) [
    | inl e ↦
        rw (fill_in_sector-none (sectors k) e, find_in)
          (fill_in-none sectors ks (rw (e, fill_in) at h))
    | inr (ds, e) ↦ cc (rw (e, fill_in) at h)
  ]
