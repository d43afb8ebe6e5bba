-- ===== src/Journal/Logging.antt =====
-- The ring of entries that logOperation and commitOperation write to.
use level_fs.Base.{
  ℕ, zero, suc, ◌*◌, ◌/◌, ◌%◌, ◌<◌, ◌==◌, if◌then◌else◌, ◌≡◌, ◌≢◌, refl, ◌∙◌, sym, ap, List, [],
  ◌∷◌, Option, none, some, Bool, true, false, not, arith, All, length, all, Bool-cases, inl, inr,
  if_false, Option-cases, ==_refl,
}
use level_fs.Journal.{
  JournalEntry, Journal, journal_sectors, entries_per_sector, change_at, put_at, committed,
  commit_in_sector, commit_in_sectors,
}

abbrev pub nth? {ℓ} : {A : Type ℓ} → ℕ → List A → Option A
nth? n [] = none
nth? zero (x ∷ xs) = some x
nth? (suc n) (x ∷ xs) = nth? n xs

-- The entry in a place of the ring.
abbrev pub entry_at : List (List JournalEntry) → ℕ → Option JournalEntry
entry_at ss i = elim (nth? (i / 7) ss) [ none ↦ none | some s ↦ nth? (i % 7) s ]

-- Sectors are full, and the head is in the ring.
pub record IsRing (j : Journal) : Type 0 where
  pub full : All (λ s. length s ≡ entries_per_sector) j.sectors
  pub head_inside : j.journal_head < journal_sectors j * entries_per_sector

-- No entry has this transaction's number.
abbrev pub is_absent : ℕ → List JournalEntry → Bool
is_absent tx_id = all (λ e. not (e.tx_id == tx_id))

abbrev pub is_fresh : ℕ → List (List JournalEntry) → Bool
is_fresh tx_id = all (is_absent tx_id)

module _ {ℓ} {A : Type ℓ} where
  length-put_at : (n : ℕ) (a : A) (xs : List A) → length (put_at n a xs) ≡ length xs
  length-put_at n a [] = refl
  length-put_at zero a (x ∷ xs) = refl
  length-put_at (suc n) a (x ∷ xs) = ap suc (length-put_at n a xs)

  pub length-change_at : (n : ℕ) (f : A → A) (xs : List A) → length (change_at n f xs) ≡ length xs
  length-change_at n f [] = refl
  length-change_at zero f (x ∷ xs) = refl
  length-change_at (suc n) f (x ∷ xs) = ap suc (length-change_at n f xs)

  nth?-put_at :
      (n i : ℕ) (a : A) (xs : List A)
      → n < length xs
      → nth? i (put_at n a xs) ≡ (if i == n then some a else nth? i xs)
  nth?-put_at n i a [] h = absurd (omega (arith, h))
  nth?-put_at zero zero a (x ∷ xs) h = refl
  nth?-put_at zero (suc i) a (x ∷ xs) h = ground arith
  nth?-put_at (suc n) zero a (x ∷ xs) h = ground arith
  nth?-put_at (suc n) (suc i) a (x ∷ xs) h = nth?-put_at n i a xs (omega (arith, h)) ∙ ground arith

  nth?-change_at :
      (n i : ℕ) (f : A → A) (xs : List A)
      → nth? i (change_at n f xs)
        ≡ (if i == n then elim (nth? i xs) [ none ↦ none | some x ↦ some (f x) ] else nth? i xs)
  nth?-change_at n i f [] = ground arith
  nth?-change_at zero zero f (x ∷ xs) = refl
  nth?-change_at zero (suc i) f (x ∷ xs) = ground arith
  nth?-change_at (suc n) zero f (x ∷ xs) = ground arith
  nth?-change_at (suc n) (suc i) f (x ∷ xs) = nth?-change_at n i f xs ∙ ground arith

full_at :
    (k : ℕ) (ss : List (List JournalEntry)) (s : List JournalEntry)
    → All (λ s. length s ≡ entries_per_sector) ss
    → nth? k ss ≡ some s
    → length s ≡ 7
full_at k [] s _ e = cc
full_at zero (x ∷ xs) s (h, hs) e = ground (arith, h, e)
full_at (suc k) (x ∷ xs) s (h, hs) e = full_at k xs s hs e

nth?_inside {ℓ} : {A : Type ℓ} (k : ℕ) (xs : List A) → k < length xs → nth? k xs ≢ none
nth?_inside k [] h e = absurd (omega (arith, h))
nth?_inside zero (x ∷ xs) h e = cc
nth?_inside (suc k) (x ∷ xs) h e = nth?_inside k xs (omega (arith, h)) e

-- One place written: the others read as before.
pub entry_at-written :
    (ss : List (List JournalEntry)) (h i : ℕ) (e : JournalEntry)
    → All (λ s. length s ≡ entries_per_sector) ss
    → h < length ss * 7
    → entry_at (change_at (h / 7) (put_at (h % 7) e) ss) i
      ≡ (if i == h then some e else entry_at ss i)
entry_at-written ss h i e full inside = elim (Option-cases (nth? (i / 7) ss)) [
  | inl none_there ↦
      let out : (i == h) ≡ false = elim (Bool-cases (i == h)) [
        | inl same ↦
            let at : i ≡ h = ground arith in
            absurd (nth?_inside (h / 7) ss (omega (arith, inside)) (rw (sym at) none_there))
        | inr other ↦ other
      ] in
      rw (nth?-change_at (h / 7) (i / 7) (put_at (h % 7) e) ss, none_there, out, entry_at)
        (ground arith)
  | inr (s, there) ↦
      let written =
        nth?-put_at (h % 7) (i % 7) e s (omega (arith, full_at (i / 7) ss s full there)) in
      elim (Bool-cases (i / 7 == h / 7)) [
        | inl same ↦
            rw (nth?-change_at (h / 7) (i / 7) (put_at (h % 7) e) ss, there, same, entry_at)
              (written ∙ ap (λ b. if b then some e else nth? (i % 7) s) (ground arith))
        | inr other ↦
            rw (nth?-change_at (h / 7) (i / 7) (put_at (h % 7) e) ss, there, other, entry_at)
              (sym (if_false (i == h) _ _ (ground arith)))
      ]
]

pub written-full :
    (k n : ℕ) (e : JournalEntry) (ss : List (List JournalEntry))
    → All (λ s. length s ≡ entries_per_sector) ss
    → All (λ s. length s ≡ entries_per_sector) (change_at k (put_at n e) ss)
written-full k n e [] _ = tt
written-full zero n e (s ∷ ss) (h, hs) = (length-put_at n e s ∙ h, hs)
written-full (suc k) n e (s ∷ ss) (h, hs) = (h, written-full k n e ss hs)

commit_absent :
    (tx_id : ℕ) (es : List JournalEntry)
    → is_absent tx_id es ≡ true
    → commit_in_sector tx_id es ≡ none
unfolding commit_in_sector
commit_absent tx_id [] h = refl
commit_absent tx_id (e ∷ es) h = ground (arith, commit_absent tx_id es)

commit_placed :
    (tx_id n : ℕ) (e : JournalEntry) (es : List JournalEntry)
    → is_absent tx_id es ≡ true
    → e.tx_id ≡ tx_id
    → n < length es
    → commit_in_sector tx_id (put_at n e es) ≡ some (put_at n (committed e) es)
unfolding commit_in_sector
commit_placed tx_id n e [] h same below = absurd (omega (arith, below))
commit_placed tx_id zero e (x ∷ xs) h same below = rw (same, ==_refl tx_id)
commit_placed tx_id (suc n) e (x ∷ xs) h same below =
    let other : (x.tx_id == tx_id) ≡ false = ground arith in
    let rest : is_absent tx_id xs ≡ true = ground arith in
    rw (other, commit_placed tx_id n e xs rest same (omega (arith, below)))

pub commit_written :
    (tx_id k n : ℕ) (e : JournalEntry) (ss : List (List JournalEntry))
    → is_fresh tx_id ss ≡ true
    → e.tx_id ≡ tx_id
    → All (λ s. length s ≡ entries_per_sector) ss
    → k < length ss
    → n < 7
    → commit_in_sectors tx_id (change_at k (put_at n e) ss)
      ≡ some (change_at k (put_at n (committed e)) ss)
unfolding commit_in_sectors
commit_written tx_id k n e [] h same full below small = absurd (omega (arith, below))
commit_written tx_id zero n e (s ∷ ss) h same (f, fs) below small =
    let here : is_absent tx_id s ≡ true = ground arith in
    rw (commit_placed tx_id n e s here same (omega (arith, f, small)), commit_in_sectors)
commit_written tx_id (suc k) n e (s ∷ ss) h same (f, fs) below small =
    let here : is_absent tx_id s ≡ true = ground arith in
    let rest : is_fresh tx_id ss ≡ true = ground arith in
    rw (
      commit_absent tx_id s here,
      commit_written tx_id k n e ss rest same fs (omega (arith, below)) small,
      commit_in_sectors,
    )
