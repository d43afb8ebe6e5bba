-- ===== src/Base/Keys.antt =====
-- The keys of an association list, each once, and the entries that pass a test.
use Prim.Native.Nat.{ℕ}
use mathlib.Core.Path.{◌≡◌, refl, ◌∙◌}
use mathlib.Core.Logic.{inl, inr}
use mathlib.Core.Bool.{Bool, true, false}
use mathlib.Core.Option.{Option, none, some}
use mathlib.Core.List.{List, [], ◌∷◌}
use native.Mathlib.Omega.{arith}
use level_fs.Base.Tests.{◌==◌, if◌then◌else◌, Bool-cases}
use level_fs.Base.Lists.{keep, mem, Distinct}
use level_fs.Base.Assoc.{lookup, insert}

module _ {ℓ} {V : Type ℓ} where
  abbrev pub keys : List (ℕ × V) → List ℕ
  keys [] = []
  keys ((k, v) ∷ m) = k ∷ keys m

  pub mem-keys-insert :
      (j k : ℕ) (v : V) (m : List (ℕ × V))
      → mem j (keys (insert k v m)) ≡ (if j == k then true else mem j (keys m))
  mem-keys-insert j k v [] = ground arith
  mem-keys-insert j k v ((i, w) ∷ m) = ground (arith, mem-keys-insert j k v m)

  pub keys-insert-Distinct :
      (k : ℕ) (v : V) (m : List (ℕ × V)) → Distinct (keys m) → Distinct (keys (insert k v m))
  keys-insert-Distinct k v [] _ = (refl, tt)
  keys-insert-Distinct k v ((j, w) ∷ m) d =
      ground (arith, keys-insert-Distinct k v m, mem-keys-insert j k v m)

  pub lookup_absent : (k : ℕ) (m : List (ℕ × V)) → mem k (keys m) ≡ false → lookup k m ≡ none
  lookup_absent k [] h = refl
  lookup_absent k ((j, w) ∷ m) h = ground (arith, lookup_absent k m)

  module _ (p : V → Bool) where
    abbrev pub passes : (ℕ × V) → Bool
    passes (k, v) = p v

    pub mem-keys-keep :
        (k : ℕ) (m : List (ℕ × V)) → mem k (keys m) ≡ false → mem k (keys (keep passes m)) ≡ false
    mem-keys-keep k [] h = refl
    mem-keys-keep k ((j, w) ∷ m) h = ground (arith, mem-keys-keep k m)

    pub keys-keep-Distinct :
        (m : List (ℕ × V)) → Distinct (keys m) → Distinct (keys (keep passes m))
    keys-keep-Distinct [] d = tt
    keys-keep-Distinct ((j, w) ∷ m) d = ground (arith, keys-keep-Distinct m, mem-keys-keep j m)

    abbrev pub passing : Option V → Option V
    passing none = none
    passing (some v) = if p v then some v else none

    pub lookup-keep :
        (k : ℕ) (m : List (ℕ × V))
        → Distinct (keys m)
        → lookup k (keep passes m) ≡ passing (lookup k m)
    lookup-keep k [] d = refl
    lookup-keep k ((j, w) ∷ m) (absent, d) = elim (Bool-cases (k == j)) [
      | inl same ↦ elim (Bool-cases (p w)) [
        | inl kept ↦ rw (same, kept) (rw (same) refl)
        | inr left ↦
            let at : k ≡ j = ground (arith, same) in
            let missing : lookup k m ≡ none = lookup_absent k m (rw at absent) in
            rw (same, left) (lookup-keep k m d ∙ rw missing refl)
      ]
      | inr other ↦ elim (Bool-cases (p w)) [
        | inl kept ↦ rw (other, kept) (rw other (lookup-keep k m d))
        | inr left ↦ rw (other, left) (lookup-keep k m d)
      ]
    ]
