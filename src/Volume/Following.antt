-- ===== src/Volume/Following.antt =====
-- The chains that getChain follows.
use level_fs.Base.{
  ℕ, zero, suc, ◌+◌, ◌<◌, ◌≤◌, ◌==◌, ltb, leb, ◌≡◌, refl, ap, List, [], ◌∷◌, ◌++◌, some, Bool, true,
  false, ◌||◌, not, mem, length, length-append, arith, inl, inr, Bool-cases, All, All-append,
  Distinct, last_char, is_empty,
}
use level_fs.Volume.{Volume, lat_end, is_reserved_cluster}
use level_fs.Volume.Table.{get_lat_entry}
use level_fs.Volume.Chain.{continues, follow, get_chain}

-- Each cluster of the list is the next one of the cluster before it.
pub Linked : Volume → List ℕ → Type 0
Linked v [] = Unit {0}
Linked v (x ∷ []) = Unit {0}
Linked v (x ∷ y ∷ ys) = (get_lat_entry v x ≡ y) × Linked v (y ∷ ys)

-- A chain from `start`: clusters of the volume, none twice, each the next one of the one before.
pub record IsChain (v : Volume) (start : ℕ) (xs : List ℕ) : Type 0 where
  pub first : (rest : List ℕ) × (xs ≡ start ∷ rest)
  pub distinct : Distinct xs
  pub inside : All (λ c. ltb c v.sb.total_clusters ≡ true) xs
  pub linked : Linked v xs

-- Why a chain ends where it does.
pub ends_here : Volume → List ℕ → Bool
ends_here v xs =
    not (continues v (get_lat_entry v (last_char xs)))
    || mem (get_lat_entry v (last_char xs)) xs
    || ltb 1000000 (length xs)

mem-snoc : (k y : ℕ) (xs : List ℕ) → mem k (xs ++ y ∷ []) ≡ (mem k xs || k == y)
mem-snoc k y [] = ground arith
mem-snoc k y (x ∷ xs) = ground (arith, mem-snoc k y xs)

Distinct-snoc : (y : ℕ) (xs : List ℕ) → Distinct xs → mem y xs ≡ false → Distinct (xs ++ y ∷ [])
Distinct-snoc y [] d h = (refl, tt)
Distinct-snoc y (x ∷ xs) (e, d) h =
    let rest : mem y xs ≡ false = ground arith in
    (ground (arith, mem-snoc x y xs), Distinct-snoc y xs d rest)

Linked-snoc :
    (v : Volume) (y : ℕ) (xs : List ℕ)
    → Linked v xs
    → is_empty xs ≡ false
    → get_lat_entry v (last_char xs) ≡ y
    → Linked v (xs ++ y ∷ [])
unfolding Linked
Linked-snoc v y [] l h e = cc
Linked-snoc v y (x ∷ []) l h e = (e, tt)
Linked-snoc v y (x ∷ z ∷ zs) (l, ls) h e = (l, Linked-snoc v y (z ∷ zs) ls refl e)

last_char-snoc : (y : ℕ) (xs : List ℕ) → last_char (xs ++ y ∷ []) ≡ y
last_char-snoc y [] = refl
last_char-snoc y (x ∷ []) = refl
last_char-snoc y (x ∷ z ∷ zs) = last_char-snoc y (z ∷ zs)

IsChain-snoc :
    (v : Volume) (start y : ℕ) (xs : List ℕ)
    → IsChain v start xs
    → get_lat_entry v (last_char xs) ≡ y
    → continues v y ≡ true
    → mem y xs ≡ false
    → IsChain v start (xs ++ y ∷ [])
IsChain-snoc v start y xs c e go new =
    let (rest, same) = c.first in
    record {
      first = (rest ++ y ∷ [], ap (λ zs. zs ++ y ∷ []) same);
      distinct = Distinct-snoc y xs c.distinct new;
      inside =
          All-append (λ c. ltb c v.sb.total_clusters ≡ true) xs (y ∷ []) c.inside
            (ground arith, tt);
      linked = Linked-snoc v y xs c.linked (ap is_empty same) e;
    }

or_last : (a b c : Bool) → c ≡ true → (a || b || c) ≡ true
or_last a b c h = ground arith

follow-IsChain :
    (fuel : ℕ) (v : Volume) (start current : ℕ) (xs : List ℕ)
    → IsChain v start xs
    → get_lat_entry v (last_char xs) ≡ current
    → length xs ≤ 1000000
    → 1000001 ≤ fuel + length xs
    → (ys : List ℕ) × (follow fuel v xs current ≡ some ys)
      × IsChain v start ys
      × (ends_here v ys ≡ true)
unfolding follow ends_here
follow-IsChain zero v start current xs c e short enough = absurd (omega (arith, short, enough))
follow-IsChain (suc fuel) v start current xs c e short enough =
    elim (Bool-cases (continues v current)) [
      | inr stop ↦ (xs, rw stop, c, rw (e, stop) refl)
      | inl go ↦ elim (Bool-cases (mem current xs)) [
        | inl loop ↦ (xs, rw (go, loop), c, rw (e, go, loop) refl)
        | inr new ↦
            let longer = xs ++ current ∷ [] in
            let c' = IsChain-snoc v start current xs c e go new in
            let size = length-append xs (current ∷ []) in
            elim (Bool-cases (ltb 1000000 (length longer))) [
              | inl long ↦ (
                longer,
                rw (go, new, long),
                c',
                or_last (not (continues v (get_lat_entry v (last_char longer))))
                    (mem (get_lat_entry v (last_char longer)) longer) _ long,
              )
              | inr fits ↦
                  let (ys, runs, chain, ends) =
                    follow-IsChain fuel v start (get_lat_entry v current) longer c'
                      (ap (get_lat_entry v) (last_char-snoc current xs)) (ground arith)
                      (omega (arith, size, enough)) in
                  (ys, rw (go, new, fits) runs, chain, ends)
            ]
      ]
    ]

one_cluster : (v : Volume) (start : ℕ) → start < v.sb.total_clusters → IsChain v start (start ∷ [])
unfolding Linked
one_cluster v start h = record {
  first = ([], refl);
  distinct = (refl, tt);
  inside = (ground arith, tt);
  linked = tt;
}

get_lat_entry_reserved :
    (v : Volume) (c : ℕ) → is_reserved_cluster v.sb c ≡ true → get_lat_entry v c ≡ lat_end
unfolding get_lat_entry
get_lat_entry_reserved v c h = ground arith

-- getChain returns on every table, also on one whose entries form a loop. From a cluster of the volume
-- it gives a list that starts with the cluster, has no cluster twice, only clusters of the volume, and
-- each cluster followed by its next one; and it ends where the next cluster is none, is in the list
-- already, or the list has more than a million clusters. The fuel is a million rounds.
pub get_chain-IsChain :
    (fuel : ℕ) (v : Volume) (start : ℕ)
    → 1000000 ≤ fuel
    → 0 < start
    → start < v.sb.total_clusters
    → (xs : List ℕ) × (get_chain fuel v start ≡ some xs)
      × IsChain v start xs
      × (ends_here v xs ≡ true)
unfolding get_chain ends_here
get_chain-IsChain fuel v start enough positive below =
    let single = one_cluster v start below in
    let real : (start == 0 || leb v.sb.total_clusters start) ≡ false = ground arith in
    elim (Bool-cases (is_reserved_cluster v.sb start)) [
      | inl reserved ↦ (
        start ∷ [],
        rw (real, reserved),
        single,
        rw (get_lat_entry_reserved v start reserved) refl,
      )
      | inr free ↦
          let (xs, runs, chain, ends) =
            follow-IsChain fuel v start (get_lat_entry v start) (start ∷ []) single refl
              (omega arith) (omega (arith, enough)) in
          (xs, rw (real, free) runs, chain, ends)
    ]
