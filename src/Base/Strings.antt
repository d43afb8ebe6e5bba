-- ===== src/Base/Strings.antt =====
-- Strings as lists of character codes: equality, parts, and the last place of a character.
use Prim.Native.Nat.{ℕ, zero, suc, ◌<◌}
use mathlib.Core.Path.{◌≡◌, refl, ap}
use mathlib.Core.Logic.{inl, inr}
use mathlib.Core.Bool.{Bool, true, false, ◌&&◌}
use mathlib.Core.List.{List, [], ◌∷◌, ◌++◌}
use mathlib.Core.Option.{Option, none, some}
use native.Mathlib.Omega.{arith}
use level_fs.Base.Tests.{◌==◌, if◌then◌else◌, Option-cases, ==_refl}
use level_fs.Base.Lists.{length, mem}

abbrev pub String : Type 0
String = List ℕ

abbrev pub list_eq : String → String → Bool
list_eq [] [] = true
list_eq [] (y ∷ ys) = false
list_eq (x ∷ xs) [] = false
list_eq (x ∷ xs) (y ∷ ys) = x == y && list_eq xs ys

abbrev pub is_empty {ℓ} : {A : Type ℓ} → List A → Bool
is_empty [] = true
is_empty (x ∷ xs) = false

abbrev pub take {ℓ} : {A : Type ℓ} → ℕ → List A → List A
take zero xs = []
take (suc n) [] = []
take (suc n) (x ∷ xs) = x ∷ take n xs

abbrev pub drop {ℓ} : {A : Type ℓ} → ℕ → List A → List A
drop zero xs = xs
drop (suc n) [] = []
drop (suc n) (x ∷ xs) = drop n xs

abbrev pub drop_last {ℓ} : {A : Type ℓ} → List A → List A
drop_last [] = []
drop_last (x ∷ []) = []
drop_last (x ∷ y ∷ ys) = x ∷ drop_last (y ∷ ys)

-- The last character, 0 of the empty string.
abbrev pub last_char : String → ℕ
last_char [] = 0
last_char (x ∷ []) = x
last_char (x ∷ y ∷ ys) = last_char (y ∷ ys)

-- std::string::rfind of one character; `none` is npos.
abbrev pub rfind : ℕ → String → Option ℕ
rfind c [] = none
rfind c (x ∷ xs) = elim (rfind c xs) [
  | none ↦ if x == c then some 0 else none
  | some i ↦ some (suc i)
]

pub list_eq→eq : (xs ys : String) → list_eq xs ys ≡ true → xs ≡ ys
list_eq→eq [] [] h = refl
list_eq→eq [] (y ∷ ys) h = cc
list_eq→eq (x ∷ xs) [] h = cc
list_eq→eq (x ∷ xs) (y ∷ ys) h = ground (arith, list_eq→eq xs ys)

pub list_eq_refl : (xs : String) → list_eq xs xs ≡ true
list_eq_refl [] = refl
list_eq_refl (x ∷ xs) = rw (==_refl x, list_eq_refl xs)

pub take-append {ℓ} : {A : Type ℓ} (xs ys : List A) → take (length xs) (xs ++ ys) ≡ xs
take-append [] ys = refl
take-append (x ∷ xs) ys = ap (λ zs. x ∷ zs) (take-append xs ys)

pub drop-append {ℓ} : {A : Type ℓ} (xs ys : List A) → drop (length xs) (xs ++ ys) ≡ ys
drop-append [] ys = refl
drop-append (x ∷ xs) ys = drop-append xs ys

pub drop-append-suc {ℓ} :
    {A : Type ℓ} (y : A) (xs ys : List A) → drop (suc (length xs)) (xs ++ y ∷ ys) ≡ ys
drop-append-suc y [] ys = refl
drop-append-suc y (x ∷ xs) ys = drop-append-suc y xs ys

pub rfind_absent : (c : ℕ) (s : String) → mem c s ≡ false → rfind c s ≡ none
rfind_absent c [] h = refl
rfind_absent c (x ∷ xs) h = ground (arith, rfind_absent c xs)

pub rfind-append : (c : ℕ) (s t : String) → mem c t ≡ false → rfind c (s ++ c ∷ t) ≡ some (length s)
rfind-append c [] t h = rw (rfind_absent c t h, ==_refl c)
rfind-append c (x ∷ xs) t h = rw (rfind-append c xs t h)

pub rfind-none : (c : ℕ) (s : String) → rfind c s ≡ none → mem c s ≡ false
rfind-none c [] h = refl
rfind-none c (x ∷ xs) h = elim (Option-cases (rfind c xs)) [
  | inl e ↦ ground (arith, rfind-none c xs e)
  | inr (i, e) ↦ ground (arith, e)
]

-- The place found holds the character, and none stands after it.
pub rfind_split :
    (c i : ℕ) (s : String)
    → rfind c s ≡ some i
    → (s ≡ take i s ++ c ∷ drop (suc i) s) × (mem c (drop (suc i) s) ≡ false) × (i < length s)
rfind_split c i [] h = cc
rfind_split c i (x ∷ xs) h = elim (Option-cases (rfind c xs)) [
  | inl e ↦
      let here : (x ≡ c) × (i ≡ 0) = ground (arith, e) in
      rw here.1 (ap (λ y. y ∷ xs) here.0, rfind-none c xs e, omega arith)
  | inr (j, e) ↦
      let next : i ≡ suc j = ground (arith, e) in
      let (same, none_after, below) = rfind_split c j xs e in
      rw next (ap (λ ys. x ∷ ys) same, none_after, omega (arith, below))
]
