-- ===== src/Cache/Order.antt =====
-- The recency list: `back` and `pop_back` of std::list, and what they do to membership.
use level_fs.Base.{
  ℕ, ◌==◌, if◌then◌else◌, List, [], ◌∷◌, Option, none, some, ◌≡◌, true, false, arith, mem, Distinct,
}

unfoldable pub back : List ℕ → Option ℕ
back [] = none
back (x ∷ []) = some x
back (x ∷ y ∷ xs) = back (y ∷ xs)

unfoldable pub pop_back : List ℕ → List ℕ
pop_back [] = []
pop_back (x ∷ []) = []
pop_back (x ∷ y ∷ xs) = x ∷ pop_back (y ∷ xs)

pub mem-back : (xs : List ℕ) (k : ℕ) → back xs ≡ some k → mem k xs ≡ true
unfolding back
mem-back [] k h = cc
mem-back (x ∷ []) k h = ground arith
mem-back (x ∷ y ∷ xs) k h = ground (arith, mem-back (y ∷ xs) k)

-- In a list without repetition the last node is the only one of its key.
pub mem-pop_back :
    (xs : List ℕ) (k j : ℕ)
    → Distinct xs
    → back xs ≡ some k
    → mem j (pop_back xs) ≡ (if k == j then false else mem j xs)
unfolding back pop_back
mem-pop_back [] k j d h = cc
mem-pop_back (x ∷ []) k j d h = ground arith
mem-pop_back (x ∷ y ∷ xs) k j d h =
    ground (arith, mem-pop_back (y ∷ xs) k j d.1 h, mem-back (y ∷ xs) k h)

pub pop_back-Distinct :
    (xs : List ℕ) (k : ℕ) → Distinct xs → back xs ≡ some k → Distinct (pop_back xs)
unfolding back pop_back
pop_back-Distinct [] k d h = tt
pop_back-Distinct (x ∷ []) k d h = tt
pop_back-Distinct (x ∷ y ∷ xs) k d h =
    (ground (arith, mem-pop_back (y ∷ xs) k x d.1 h), pop_back-Distinct (y ∷ xs) k d.1 h)
