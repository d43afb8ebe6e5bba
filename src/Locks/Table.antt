-- ===== src/Locks/Table.antt =====
-- The tables of the lock manager: a vector for each file, and the removal of its first match.
use level_fs.Base.{
  ℕ, ◌==◌, if◌then◌else◌, List, [], ◌∷◌, some, ◌≡◌, refl, Bool, ◌⊎◌, inl, inr, arith, Bool-cases,
  Option-cases, insert, lookup-insert, lookup-erase, All, subst, map, keep,
}
use level_fs.Locks.{locks_of, erase_first, put_back}

module _ {ℓ} {L : Type ℓ} where
  pub locks_of-insert :
      (k j : ℕ) (v : List L) (t : List (ℕ × List L))
      → locks_of j (insert k v t) ≡ (if k == j then v else locks_of j t)
  locks_of-insert k j v t = ground (arith, lookup-insert k j v t)

  pub locks_of-put_back :
      (k j : ℕ) (v : List L) (t : List (ℕ × List L))
      → locks_of j (put_back k v t) ≡ (if k == j then v else locks_of j t)
  locks_of-put_back k j [] t = ground (arith, lookup-erase k j t)
  locks_of-put_back k j (x ∷ v) t = ground (arith, lookup-insert k j (x ∷ v) t)

  pub locks_of-keep :
      (p : L → Bool) (j : ℕ) (t : List (ℕ × List L))
      → locks_of j (map (λ e. (e.0, keep p e.1)) t) ≡ keep p (locks_of j t)
  locks_of-keep p j [] = refl
  locks_of-keep p j ((k, v) ∷ t) = ground (arith, locks_of-keep p j t)

  pub erase_first-cases :
      (p : L → Bool) (x : L) (xs rest : List L)
      → erase_first p (x ∷ xs) ≡ some rest
      → (xs ≡ rest) ⊎ ((r : List L) × (erase_first p xs ≡ some r) × (x ∷ r ≡ rest))
  unfolding erase_first
  erase_first-cases p x xs rest e = elim (Option-cases (erase_first p xs)) [
    | inl gone ↦ inl (ground arith)
    | inr (r, found) ↦ elim (Bool-cases (p x)) [
      | inl here ↦ inl (ground arith)
      | inr later ↦ inr (r, found, ground arith)
    ]
  ]

  -- What holds of every lock still does when one is gone.
  pub erase_first-All {κ} :
      (P : L → Type κ) (p : L → Bool) (xs rest : List L)
      → erase_first p xs ≡ some rest
      → All P xs
      → All P rest
  erase_first-All P p [] rest e h = absurd (unfold erase_first in cc)
  erase_first-All P p (x ∷ xs) rest e h = elim (erase_first-cases p x xs rest e) [
    | inl same ↦ subst (All P) same h.1
    | inr (r, found, same) ↦ subst (All P) same (h.0, erase_first-All P p xs r found h.1)
  ]
