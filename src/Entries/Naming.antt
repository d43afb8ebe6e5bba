-- ===== src/Entries/Naming.antt =====
-- Entries that are written, updated and deleted, and the searches that follow.
use level_fs.Base.{
  ℕ, ◌==◌, ◌≡◌, ◌⊎◌, refl, sym, ap, ◌∙◌, if_true, if_false, if◌then◌else◌, List, [], ◌∷◌, Option,
  none, some, Bool, true, false, ◌&&◌, ◌||◌, not, map, all, String, list_eq_refl, arith, Bool-cases,
  Option-cases, inl, inr,
}
use level_fs.Entries.{
  FileEntry, Store, Location, type_free, chain_from, first, change_entry, write_entry,
  update_entry_size, update_entry_attributes, update_entry_timestamp, delete_entry, cleared,
  entry_name, has_name, has_type, find_entry_with, find_by_name, find_free_slot,
}
use level_fs.Entries.Chains.{slots_of_chain}
use level_fs.Entries.Changes.{same_place, same_place_refl, changed}
use level_fs.Entries.Applying.{
  slots, IsStore, found_at, find_entry_with-first, change_entry-Applies,
}

same_place→eq : (m l : Location) → same_place m l ≡ true → m ≡ l
same_place→eq m l h = ground (arith, h)

none_first :
    (b : Bool) (x : Location × FileEntry) (o : Option (Location × FileEntry))
    → (if b then some x else o) ≡ none
    → (b ≡ false) × (o ≡ none)
none_first true x o h = cc
none_first false x o h = (refl, h)

-- The first that passes is here, or further on.
first_cases :
    (b : Bool) (x z : Location × FileEntry) (o : Option (Location × FileEntry))
    → (if b then some x else o) ≡ some z
    → ((b ≡ true) × (x ≡ z)) ⊎ ((b ≡ false) × (o ≡ some z))
first_cases true x z o h = inl (refl, cc)
first_cases false x z o h = inr (refl, h)

both_true : (a b : Bool) → (a && b) ≡ true → (a ≡ true) × (b ≡ true)
both_true true b h = (refl, h)
both_true false b h = cc

not_here :
    (m l : Location) (y x : FileEntry)
    → same_place m l ≡ false
    → ◌≡◌ {A = Location × FileEntry} (m, y) (l, x)
    → ⊥
not_here m l y x other e =
    cc (other, ap (λ (z : Location × FileEntry). same_place z.0 l) e, same_place_refl l)

module _ (f : FileEntry → FileEntry) (l m : Location) (y : FileEntry) where
  changed_here : same_place m l ≡ true → changed f l (m, y) ≡ (m, f y)
  changed_here h = ap {B = Location × FileEntry} (λ b. (m, if b then f y else y)) h

  changed_elsewhere : same_place m l ≡ false → changed f l (m, y) ≡ (m, y)
  changed_elsewhere h = ap {B = Location × FileEntry} (λ b. (m, if b then f y else y)) h

-- Searching after a change.
module _ (f : FileEntry → FileEntry) (l : Location) where
  -- The change makes its entry the first that passes.
  first-changed_put :
      (p q : (Location × FileEntry) → Bool) (xs : List (Location × FileEntry)) (x e : FileEntry)
      → ((y : FileEntry) → f y ≡ e)
      → p (l, e) ≡ true
      → first q xs ≡ some (l, x)
      → first p xs ≡ none
      → first p (map (changed f l) xs) ≡ some (l, e)
  first-changed_put p q [] x e const pass found none_before = cc
  first-changed_put p q ((m, y) ∷ xs) x e const pass found none_before =
      let (unnamed, none_after) = none_first (p (m, y)) (m, y) (first p xs) none_before in
      let rest = map (changed f l) xs in
      let step : (z : Location × FileEntry) → Option (Location × FileEntry) =
        λ z. if p z then some z else first p rest in
      elim (Bool-cases (same_place m l)) [
        | inl same ↦
            let at : m ≡ l = same_place→eq m l same in
            ap step (changed_here f l m y same ∙ ap (λ n. (n, f y)) at ∙ ap (λ z. (l, z)) (const y))
            ∙ if_true (p (l, e)) (some (l, e)) (first p rest) pass
        | inr other ↦
            ap step (changed_elsewhere f l m y other)
            ∙ if_false (p (m, y)) (some (m, y)) (first p rest) unnamed
            ∙ elim (first_cases (q (m, y)) (m, y) (l, x) (first q xs) found) [
              | inl (b, z) ↦ absurd (not_here m l y x other z)
              | inr (b, later) ↦ first-changed_put p q xs x e const pass later none_after
            ]
      ]

  -- The change takes away the only entry that passes.
  first-changed_remove :
      (p : (Location × FileEntry) → Bool) (xs : List (Location × FileEntry))
      → ((m : Location) (y : FileEntry) → p (m, f y) ≡ false)
      → all (λ (y : Location × FileEntry). not (p y) || same_place y.0 l) xs ≡ true
      → first p (map (changed f l) xs) ≡ none
  first-changed_remove p [] fails only = refl
  first-changed_remove p ((m, y) ∷ xs) fails only =
      let rest = map (changed f l) xs in
      let step : (z : Location × FileEntry) → Option (Location × FileEntry) =
        λ z. if p z then some z else first p rest in
      let (here, later) = both_true (not (p (m, y)) || same_place m l) _ only in
      let ih = first-changed_remove p xs fails later in
      elim (Bool-cases (same_place m l)) [
        | inl same ↦
            ap step (changed_here f l m y same)
            ∙ if_false (p (m, f y)) (some (m, f y)) (first p rest) (fails m y)
            ∙ ih
        | inr other ↦
            ap step (changed_elsewhere f l m y other)
            ∙ if_false (p (m, y)) (some (m, y)) (first p rest) (ground (arith, here, other))
            ∙ ih
      ]

  -- The change keeps what passes.
  first-changed_keep :
      (p : (Location × FileEntry) → Bool) (xs : List (Location × FileEntry)) (x : FileEntry)
      → ((m : Location) (y : FileEntry) → p (m, f y) ≡ p (m, y))
      → first p xs ≡ some (l, x)
      → first p (map (changed f l) xs) ≡ some (l, f x)
  first-changed_keep p [] x same found = cc
  first-changed_keep p ((m, y) ∷ xs) x same found =
      let rest = map (changed f l) xs in
      let step : (z : Location × FileEntry) → Option (Location × FileEntry) =
        λ z. if p z then some z else first p rest in
      elim (first_cases (p (m, y)) (m, y) (l, x) (first p xs) found) [
        | inl (b, z) ↦
            ap step (ap (changed f l) z ∙ changed_here f l l x (same_place_refl l))
            ∙ if_true (p (l, f x)) (some (l, f x)) (first p rest) (same l x ∙ sym (ap p z) ∙ b)
        | inr (b, later) ↦ elim (Bool-cases (same_place m l)) [
          | inl here ↦
              ap step (changed_here f l m y here)
              ∙ if_false (p (m, f y)) (some (m, f y)) (first p rest) (same m y ∙ b)
              ∙ first-changed_keep p xs x same later
          | inr other ↦
              ap step (changed_elsewhere f l m y other)
              ∙ if_false (p (m, y)) (some (m, y)) (first p rest) b
              ∙ first-changed_keep p xs x same later
        ]
      ]

found_slot :
    (st : Store) (c : ℕ) (l : Location)
    → find_free_slot st c ≡ some l
    → (e : FileEntry) × (find_entry_with st (has_type type_free) c ≡ some (l, e))
unfolding find_free_slot
found_slot st c l h = elim (Option-cases (find_entry_with st (has_type type_free) c)) [
  | inl e ↦ cc (rw (e, find_free_slot) at h)
  | inr ((m, x), e) ↦
      let at : m ≡ l = cc (rw (e, find_free_slot) at h) in (x, e ∙ ap (λ n. some (n, x)) at)
]

named :
    (e : FileEntry) (l : Location)
    → (e.type == type_free) ≡ false
    → has_name (entry_name e) (l, e) ≡ true
named e l h = rw (h, list_eq_refl (entry_name e)) refl

-- An entry in use whose name is not in the directory yet, written to the slot that findFreeSlot gives,
-- is written, and is what the search for its name then finds, at that slot; in a store whose sectors hold
-- at most eight entries and whose device accepts the write.
pub find_by_name-write_entry :
    (st : Store) (c : ℕ) (l : Location) (e : FileEntry)
    → IsStore st
    → find_free_slot st c ≡ some l
    → find_by_name st c (entry_name e) ≡ none
    → (e.type == type_free) ≡ false
    → ((write_entry e true l st).1 ≡ true)
      × (find_by_name (write_entry e true l st).0 c (entry_name e) ≡ some (l, e))
unfolding find_by_name write_entry
find_by_name-write_entry st c l e sized free absent used =
    let const : FileEntry → FileEntry = λ _. e in
    let (x, found) = found_slot st c l free in
    let (o, at) = found_at st (has_type type_free) c (l, x) found in
    let done = change_entry-Applies const (has_type type_free) c st (l, x) sized found in
    (
      done.accepted,
      find_entry_with-first (change_entry const true l st).0 (has_name (entry_name e)) c
            done.stays_open
          ∙ ap (first (has_name (entry_name e))) done.after
          ∙ first-changed_put const l (has_name (entry_name e)) (has_type type_free) (slots st c) x
              e (λ y. refl) (named e l used) at
              (sym (find_entry_with-first st (has_name (entry_name e)) c o) ∙ absent),
    )

-- An entry that the search for its name has found and that alone bears it along the directory is
-- deleted, and the name is then not found any more; in a store whose sectors hold at most eight entries
-- and whose device accepts the write.
pub find_by_name-delete_entry :
    (st : Store) (c : ℕ) (name : String) (l : Location) (e : FileEntry)
    → IsStore st
    → find_by_name st c name ≡ some (l, e)
    → all
        (λ (y : Location × FileEntry). not (has_name name y) || same_place y.0 l)
        (slots_of_chain st.entries (chain_from st.next_cluster 1000 c))
      ≡ true
    → ((delete_entry true l st).1 ≡ true) × (find_by_name (delete_entry true l st).0 c name ≡ none)
unfolding find_by_name delete_entry
find_by_name-delete_entry st c name l e sized found only =
    let clear : FileEntry → FileEntry = λ _. cleared in
    let done = change_entry-Applies clear (has_name name) c st (l, e) sized found in
    (
      done.accepted,
      find_entry_with-first (change_entry clear true l st).0 (has_name name) c done.stays_open
          ∙ ap (first (has_name name)) done.after
          ∙ first-changed_remove clear l (has_name name) (slots st c) (λ m y. refl) only,
    )

-- A change that a test of the search does not see succeeds and keeps what is found.
pub change_entry-keep :
    (f : FileEntry → FileEntry) (p : (Location × FileEntry) → Bool) (st : Store) (c : ℕ)
    (l : Location) (e : FileEntry)
    → IsStore st
    → find_entry_with st p c ≡ some (l, e)
    → ((m : Location) (y : FileEntry) → p (m, f y) ≡ p (m, y))
    → ((change_entry f true l st).1 ≡ true)
      × (find_entry_with (change_entry f true l st).0 p c ≡ some (l, f e))
change_entry-keep f p st c l e sized found same =
    let (o, at) = found_at st p c (l, e) found in
    let done = change_entry-Applies f p c st (l, e) sized found in
    (
      done.accepted,
      find_entry_with-first (change_entry f true l st).0 p c done.stays_open
          ∙ ap (first p) done.after
          ∙ first-changed_keep f l p (slots st c) e same at,
    )

-- After its size, its attributes or its time of change are updated, an entry is found by its name at the
-- same place, with the new values and otherwise as it was; in a store whose sectors hold at most eight
-- entries and whose device accepts the write.
pub find_by_name-update_entry :
    (st : Store) (c : ℕ) (name : String) (l : Location) (e : FileEntry) (value now : ℕ)
    → IsStore st
    → find_by_name st c name ≡ some (l, e)
    → (find_by_name (update_entry_size value now true l st).0 c name
        ≡ some (l, record e { size = value; mod_time = now }))
      × (find_by_name (update_entry_attributes value now true l st).0 c name
          ≡ some (l, record e { attributes = value; mod_time = now }))
      × (find_by_name (update_entry_timestamp now true l st).0 c name
          ≡ some (l, record e { mod_time = now }))
unfolding find_by_name update_entry_size update_entry_attributes update_entry_timestamp
find_by_name-update_entry st c name l e value now sized found = (
  (change_entry-keep (λ y. record y { size = value; mod_time = now }) (has_name name) st c l e sized
      found (λ m y. refl)).1,
  (change_entry-keep (λ y. record y { attributes = value; mod_time = now }) (has_name name) st c l e
      sized found (λ m y. refl)).1,
  (change_entry-keep (λ y. record y { mod_time = now }) (has_name name) st c l e sized found
      (λ m y. refl)).1,
)
