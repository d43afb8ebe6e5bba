-- ===== src/Entries.antt =====
-- Directory and version entries: classes EntryReader, EntryWriter and EntryFinder of src/fs_entry.hpp.
-- What the device answers for a sector is seen as its entries; `none` is a read that fails. The sector
-- that gives a cluster's successor holds no entries, and an answer of the device to a write is an
-- argument.
pub mod Chains
pub mod Changes
pub mod Applying
pub mod Naming
mod Tests
use level_fs.Base.{
  ℕ, zero, suc, ◌+◌, ◌-◌, ◌*◌, ◌^◌, ◌==◌, ltb, leb, if◌then◌else◌, List, [], ◌∷◌, ◌++◌, Option,
  none, some, Bool, true, false, ◌&&◌, ◌||◌, not, keep, String, list_eq, take, map,
}

-- The name is the array of 24 characters.
pub record FileEntry : Type 0 where
  pub name : List ℕ
  pub extension : List ℕ
  pub type : ℕ
  pub owner_level : ℕ
  pub start_cluster : ℕ
  pub size : ℕ
  pub attributes : ℕ
  pub create_time : ℕ
  pub mod_time : ℕ
  pub access_time : ℕ

pub record VersionEntry : Type 0 where
  pub version_name : List ℕ
  pub content_table_cluster : ℕ
  pub level_id : ℕ
  pub parent_level_id : ℕ
  pub flags : ℕ
  pub permissions : ℕ
  pub create_time : ℕ
  pub mod_time : ℕ
  pub is_active : ℕ
  pub is_locked : ℕ
  pub is_snapshot : ℕ

pub record Store : Type 0 where
  pub is_open : Bool
  pub entries : ℕ → Option (List FileEntry)
  pub versions : ℕ → Option (List VersionEntry)
  pub next_cluster : ℕ → Option ℕ

pub record Location : Type 0 where
  pub cluster : ℕ
  pub sector : ℕ
  pub index : ℕ

abbrev pub type_free : ℕ
type_free = 0

abbrev pub chain_end : ℕ
chain_end = 2 ^ 64 - 1

-- The successor that a loop goes on with.
abbrev pub follows : ℕ → Option ℕ → Option ℕ
follows c none = none
follows c (some n) = if n == chain_end || n == c then none else some n

module _ {A : Type 0} where
  -- The entries of a sector with their places.
  unfoldable pub slots_from : ℕ → ℕ → ℕ → List A → List (Location × A)
  slots_from c sector index [] = []
  slots_from c sector index (e ∷ es) =
      (record { cluster = c; sector = sector; index = index }, e)
      ∷ slots_from c sector (suc index) es

  abbrev pub read_slots : ℕ → ℕ → Option (List A) → List (Location × A)
  read_slots c sector none = []
  read_slots c sector (some es) = slots_from c sector 0 es

  -- The loop over the sectors of a cluster, with the sectors left and the next one.
  unfoldable pub slots_of_sectors : (ℕ → Option (List A)) → ℕ → ℕ → ℕ → List (Location × A)
  slots_of_sectors view c zero sector = []
  slots_of_sectors view c (suc left) sector =
      read_slots c sector (view (c * 8 + sector)) ++ slots_of_sectors view c left (suc sector)

  unfoldable pub slots_of_cluster : (ℕ → Option (List A)) → ℕ → List (Location × A)
  slots_of_cluster view c = slots_of_sectors view c 8 0

  abbrev pub first : ((Location × A) → Bool) → List (Location × A) → Option (Location × A)
  first p [] = none
  first p (x ∷ xs) = if p x then some x else first p xs

  -- What was found in a cluster, or else behind it.
  abbrev pub or_first : Option (Location × A) → Option (Location × A) → Option (Location × A)
  or_first none rest = rest
  or_first (some x) rest = some x

  -- The loops that return at the first entry that passes a test.
  unfoldable pub find_from :
      (ℕ → Option (List A))
      → (ℕ → Option ℕ)
      → ((Location × A) → Bool)
      → ℕ
      → ℕ
      → Option (Location × A)
  find_from view next p zero c = none
  find_from view next p (suc limit) c =
      let rest : Option (Location × A) = elim (follows c (next c)) [
        | none ↦ none
        | some n ↦ find_from view next p limit n
      ] in
      if c == 0 || c == chain_end then none else or_first (first p (slots_of_cluster view c)) rest

  -- The loops that go through all entries.
  unfoldable pub all_from :
      (ℕ → Option (List A)) → (ℕ → Option ℕ) → ((Location × A) → Bool) → ℕ → ℕ → List (Location × A)
  all_from view next p zero c = []
  all_from view next p (suc limit) c =
      let rest : List (Location × A) = elim (follows c (next c)) [
        | none ↦ []
        | some n ↦ all_from view next p limit n
      ] in
      if c == 0 || c == chain_end then [] else keep p (slots_of_cluster view c) ++ rest

-- The first loop of readAllEntries.
unfoldable pub chain_from : (ℕ → Option ℕ) → ℕ → ℕ → List ℕ
chain_from next zero c = []
chain_from next (suc limit) c =
    let rest : List ℕ = elim (follows c (next c)) [
      | none ↦ []
      | some n ↦ chain_from next limit n
    ] in
    if c == 0 || c == chain_end then [] else c ∷ rest

abbrev pub entry_of : {A : Type 0} → (Location × A) → A
entry_of (l, e) = e

abbrev pub in_use : (Location × FileEntry) → Bool
in_use (l, e) = not (e.type == type_free)

unfoldable pub read_entries_from_cluster : Store → ℕ → List FileEntry
read_entries_from_cluster st c =
    if not st.is_open || c == 0
    then []
    else map entry_of (keep in_use (slots_of_cluster st.entries c))

unfoldable pub entries_of_chain : Store → List ℕ → List FileEntry
entries_of_chain st [] = []
entries_of_chain st (c ∷ cs) =
    map entry_of (keep in_use (slots_of_cluster st.entries c)) ++ entries_of_chain st cs

unfoldable pub read_all_entries : Store → ℕ → List FileEntry
read_all_entries st c =
    if not st.is_open || c == 0 then [] else entries_of_chain st (chain_from st.next_cluster 1000 c)

abbrev pub is_active_version : (Location × VersionEntry) → Bool
is_active_version (l, v) = not (v.is_active == 0)

unfoldable pub read_version_entries : Store → ℕ → List VersionEntry
read_version_entries st c =
    if not st.is_open || c == 0
    then []
    else map entry_of (all_from st.versions st.next_cluster is_active_version 100 c)

-- The characters before the first NUL.
abbrev pub c_string : List ℕ → String
c_string [] = []
c_string (c ∷ cs) = if c == 0 then [] else c ∷ c_string cs

abbrev pub entry_name : FileEntry → String
entry_name e = c_string (take 24 e.name)

abbrev pub has_name : String → (Location × FileEntry) → Bool
has_name name (l, e) = not (e.type == type_free) && list_eq (entry_name e) name

abbrev pub has_cluster : ℕ → (Location × FileEntry) → Bool
has_cluster target (l, e) = not (e.type == type_free) && e.start_cluster == target

abbrev pub has_type : ℕ → (Location × FileEntry) → Bool
has_type type (l, e) = e.type == type

-- The guard of the searches.
unfoldable pub find_entry_with :
    Store → ((Location × FileEntry) → Bool) → ℕ → Option (Location × FileEntry)
find_entry_with st p c =
    if not st.is_open || c == 0 then none else find_from st.entries st.next_cluster p 1000 c

unfoldable pub find_by_name : Store → ℕ → String → Option (Location × FileEntry)
find_by_name st c name = find_entry_with st (has_name name) c

unfoldable pub find_by_cluster : Store → ℕ → ℕ → Option (Location × FileEntry)
find_by_cluster st c target = find_entry_with st (has_cluster target) c

unfoldable pub find_by_type : Store → ℕ → ℕ → Option (Location × FileEntry)
find_by_type st c type = find_entry_with st (has_type type) c

unfoldable pub find_all_by_type : Store → ℕ → ℕ → List (Location × FileEntry)
find_all_by_type st c type =
    if not st.is_open || c == 0
    then []
    else all_from st.entries st.next_cluster (has_type type) 1000 c

unfoldable pub find_free_slot : Store → ℕ → Option Location
find_free_slot st c = elim (find_entry_with st (has_type type_free) c) [
  | none ↦ none
  | some (l, e) ↦ some l
]

abbrev pub nth_entry : {A : Type 0} → ℕ → List A → Option A
nth_entry i [] = none
nth_entry zero (e ∷ es) = some e
nth_entry (suc i) (e ∷ es) = nth_entry i es

unfoldable pub read_entry : Store → Location → Option FileEntry
read_entry st l = if not st.is_open then none else elim (st.entries (l.cluster * 8 + l.sector)) [
  | none ↦ none
  | some es ↦ if leb 8 l.index then none else nth_entry l.index es
]

abbrev pub change_at : {A : Type 0} → ℕ → (A → A) → List A → List A
change_at i f [] = []
change_at zero f (e ∷ es) = f e ∷ es
change_at (suc i) f (e ∷ es) = e ∷ change_at i f es

abbrev pub with_sector : {A : Type 0} → ℕ → List A → (ℕ → Option (List A)) → ℕ → Option (List A)
with_sector k es view j = if j == k then some es else view j

-- One entry of a sector that was read is changed, and the sector written back.
unfoldable pub change_sector :
    (FileEntry → FileEntry) → Bool → Location → Store → Option (List FileEntry) → Store × Bool
change_sector f ok l st none = (st, false)
change_sector f ok l st (some es) = if leb 8 l.index || not ok then (st, false) else (
  record st {
    entries = with_sector (l.cluster * 8 + l.sector) (change_at l.index f es) st.entries;
  },
  true,
)

-- The shape of all writers of directory entries.
unfoldable pub change_entry : (FileEntry → FileEntry) → Bool → Location → Store → Store × Bool
change_entry f ok l st =
    if not st.is_open
    then (st, false)
    else change_sector f ok l st (st.entries (l.cluster * 8 + l.sector))

unfoldable pub write_entry : FileEntry → Bool → Location → Store → Store × Bool
write_entry entry ok l st = change_entry (λ _. entry) ok l st

unfoldable pub update_entry_timestamp : ℕ → Bool → Location → Store → Store × Bool
update_entry_timestamp now ok l st = change_entry (λ e. record e { mod_time = now }) ok l st

unfoldable pub update_entry_attributes : ℕ → ℕ → Bool → Location → Store → Store × Bool
update_entry_attributes attrs now ok l st =
    change_entry (λ e. record e { attributes = attrs; mod_time = now }) ok l st

unfoldable pub update_entry_size : ℕ → ℕ → Bool → Location → Store → Store × Bool
update_entry_size size now ok l st =
    change_entry (λ e. record e { size = size; mod_time = now }) ok l st

-- memset
abbrev pub zeros : ℕ → List ℕ
zeros zero = []
zeros (suc n) = 0 ∷ zeros n

abbrev pub cleared : FileEntry
cleared = record {
  name = zeros 24;
  extension = zeros 4;
  type = type_free;
  owner_level = 0;
  start_cluster = 0;
  size = 0;
  attributes = 0;
  create_time = 0;
  mod_time = 0;
  access_time = 0;
}

unfoldable pub delete_entry : Bool → Location → Store → Store × Bool
delete_entry ok l st = change_entry (λ _. cleared) ok l st

-- Six version entries of 76 bytes fit in a sector.
unfoldable pub write_version_entry : VersionEntry → Bool → Location → Store → Store × Bool
write_version_entry entry ok l st =
    let k = l.cluster * 8 + l.sector in
    if not st.is_open then (st, false) else elim (st.versions k) [
      | none ↦ (st, false)
      | some vs ↦ if leb 6 l.index || not ok then (st, false) else (
        record st { versions = with_sector k (change_at l.index (λ _. entry) vs) st.versions },
        true,
      )
    ]
