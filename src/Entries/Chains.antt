-- ===== src/Entries/Chains.antt =====
-- The searches and the collecting loops over one chain agree.
use level_fs.Base.{
  ℕ, zero, suc, ◌==◌, ◌≡◌, refl, sym, ap, ◌∙◌, List, [], ◌∷◌, ◌++◌, Option, none, some, Bool, true,
  false, ◌||◌, not, keep, any, String, list_eq, map, Bool-cases, Option-cases, inl, inr,
}
use level_fs.Entries.{
  FileEntry, Store, Location, type_free, chain_end, slots_of_cluster, first, or_first, follows,
  find_from, all_from, chain_from, entry_of, in_use, entries_of_chain, read_all_entries, entry_name,
  has_name, has_type, find_entry_with, find_by_name, find_by_type, find_all_by_type,
}

module _ {A : Type 0} where
  -- The entries along a chain with their places.
  unfoldable pub slots_of_chain : (ℕ → Option (List A)) → List ℕ → List (Location × A)
  slots_of_chain view [] = []
  slots_of_chain view (c ∷ cs) = slots_of_cluster view c ++ slots_of_chain view cs

  first-append :
      (p : (Location × A) → Bool) (xs ys : List (Location × A))
      → first p (xs ++ ys) ≡ or_first (first p xs) (first p ys)
  first-append p [] ys = refl
  first-append p (x ∷ xs) ys = elim (Bool-cases (p x)) [
    | inl e ↦ rw e refl
    | inr e ↦ rw e (first-append p xs ys)
  ]

  keep-append :
      (p : (Location × A) → Bool) (xs ys : List (Location × A))
      → keep p (xs ++ ys) ≡ keep p xs ++ keep p ys
  keep-append p [] ys = refl
  keep-append p (x ∷ xs) ys = elim (Bool-cases (p x)) [
    | inl e ↦ rw e (ap (λ zs. x ∷ zs) (keep-append p xs ys))
    | inr e ↦ rw e (keep-append p xs ys)
  ]

  module _ (view : ℕ → Option (List A)) (next : ℕ → Option ℕ) (p : (Location × A) → Bool) where
    pub find_from-first :
        (limit c : ℕ)
        → find_from view next p limit c ≡ first p (slots_of_chain view (chain_from next limit c))
    unfolding find_from slots_of_chain chain_from
    find_from-first zero c = refl
    find_from-first (suc limit) c = elim (Bool-cases (c == 0 || c == chain_end)) [
      | inl stop ↦ rw stop refl
      | inr more ↦ elim (Option-cases (follows c (next c))) [
        | inl e ↦
            rw (more, e)
              (ap (or_first (first p (slots_of_cluster view c))) {x = none} {y = first p []} refl
                ∙ sym (first-append p (slots_of_cluster view c) []))
        | inr (n, e) ↦
            rw (more, e)
              (ap (or_first (first p (slots_of_cluster view c))) (find_from-first limit n)
                ∙ sym (
                    first-append p (slots_of_cluster view c)
                      (slots_of_chain view (chain_from next limit n))))
      ]
    ]

    pub all_from-keep :
        (limit c : ℕ)
        → all_from view next p limit c ≡ keep p (slots_of_chain view (chain_from next limit c))
    unfolding all_from slots_of_chain chain_from
    all_from-keep zero c = refl
    all_from-keep (suc limit) c = elim (Bool-cases (c == 0 || c == chain_end)) [
      | inl stop ↦ rw stop refl
      | inr more ↦ elim (Option-cases (follows c (next c))) [
        | inl e ↦ rw (more, e) (sym (keep-append p (slots_of_cluster view c) []))
        | inr (n, e) ↦
            rw (more, e)
              (ap (λ zs. keep p (slots_of_cluster view c) ++ zs) (all_from-keep limit n)
                ∙ sym (
                    keep-append p (slots_of_cluster view c)
                      (slots_of_chain view (chain_from next limit n))))
      ]
    ]

abbrev pub head : List (Location × FileEntry) → Option (Location × FileEntry)
head [] = none
head (x ∷ xs) = some x

first-keep :
    (p : (Location × FileEntry) → Bool) (xs : List (Location × FileEntry))
    → first p xs ≡ head (keep p xs)
first-keep p [] = refl
first-keep p (x ∷ xs) = elim (Bool-cases (p x)) [
  | inl e ↦ rw e refl
  | inr e ↦ rw e (first-keep p xs)
]

-- The search for a type returns the first of all entries of this type, with its place; nothing if there
-- is none.
pub find_by_type-find_all_by_type :
    (st : Store) (c type : ℕ) → find_by_type st c type ≡ head (find_all_by_type st c type)
unfolding find_by_type find_all_by_type find_entry_with
find_by_type-find_all_by_type st c type = elim (Bool-cases (not st.is_open || c == 0)) [
  | inl shut ↦ rw shut refl
  | inr open_now ↦ rw open_now (
      find_from-first st.entries st.next_cluster (has_type type) 1000 c
      ∙ first-keep (has_type type) (slots_of_chain st.entries (chain_from st.next_cluster 1000 c))
      ∙ ap head (sym (all_from-keep st.entries st.next_cluster (has_type type) 1000 c)))
]

abbrev pub is_some : Option (Location × FileEntry) → Bool
is_some none = false
is_some (some x) = true

any_named :
    (name : String) (xs : List (Location × FileEntry))
    → is_some (first (has_name name) xs)
      ≡ any (λ e. list_eq (entry_name e) name) (map entry_of (keep in_use xs))
any_named name [] = refl
any_named name ((l, e) ∷ xs) = elim (Bool-cases (e.type == type_free)) [
  | inl free ↦ rw free (any_named name xs)
  | inr used ↦ elim (Bool-cases (list_eq (entry_name e) name)) [
    | inl same ↦ rw (used, same) refl
    | inr other ↦ rw (used, other) (any_named name xs)
  ]
]

map-append :
    (xs ys : List (Location × FileEntry))
    → map entry_of (xs ++ ys) ≡ map entry_of xs ++ map entry_of ys
map-append [] ys = refl
map-append (x ∷ xs) ys = ap (λ zs. entry_of x ∷ zs) (map-append xs ys)

entries_of_chain-slots :
    (st : Store) (cs : List ℕ)
    → entries_of_chain st cs ≡ map entry_of (keep in_use (slots_of_chain st.entries cs))
unfolding entries_of_chain slots_of_chain
entries_of_chain-slots st [] = refl
entries_of_chain-slots st (c ∷ cs) =
    ap (λ zs. map entry_of (keep in_use (slots_of_cluster st.entries c)) ++ zs)
      (entries_of_chain-slots st cs)
    ∙ sym (
        map-append (keep in_use (slots_of_cluster st.entries c))
          (keep in_use (slots_of_chain st.entries cs)))
    ∙ ap (map entry_of)
        (sym (keep-append in_use (slots_of_cluster st.entries c) (slots_of_chain st.entries cs)))

-- The search for a name succeeds exactly when one of the entries that readAllEntries returns for the same
-- directory has that name.
pub find_by_name-read_all_entries :
    (st : Store) (c : ℕ) (name : String)
    → is_some (find_by_name st c name)
      ≡ any (λ e. list_eq (entry_name e) name) (read_all_entries st c)
unfolding find_by_name read_all_entries find_entry_with
find_by_name-read_all_entries st c name = elim (Bool-cases (not st.is_open || c == 0)) [
  | inl shut ↦ rw shut refl
  | inr open_now ↦
      let chain = chain_from st.next_cluster 1000 c in
      rw open_now (
        ap is_some (find_from-first st.entries st.next_cluster (has_name name) 1000 c)
        ∙ any_named name (slots_of_chain st.entries chain)
        ∙ ap (any (λ (e : FileEntry). list_eq (entry_name e) name))
            (sym (entries_of_chain-slots st chain)))
]
