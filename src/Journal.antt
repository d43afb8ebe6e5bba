-- ===== src/Journal.antt =====
-- class Journal of src/journal.hpp over the structures JournalEntry and DirEntry of
-- src/fs_common.hpp. The journal's region is a list of sectors of seven entries; directories are
-- read by a cluster's number and the sector in it. Reads and writes of the disk succeed, except that
-- replayUpdateDir tests each read: `readable` says which sectors can be read.
pub mod Recovery
pub mod Logging
pub mod Logged
mod Tests
use level_fs.Base.{
  ℕ, zero, suc, ◌+◌, ◌-◌, ◌*◌, ◌/◌, ◌%◌, ◌^◌, ◌==◌, ltb, leb, if◌then◌else◌, List, [], ◌∷◌, ◌++◌,
  Option, none, some, Bool, true, false, ◌&&◌, ◌||◌, not, String, list_eq, is_empty, take, length,
  map, bit_and, bit_xor,
}
use level_fs.Navigation.Buffer.{to_bytes, c_string}

abbrev pub j_pending : ℕ
j_pending = 0

abbrev pub j_committed : ℕ
j_committed = 1

abbrev pub j_aborted : ℕ
j_aborted = 2

abbrev pub entries_per_sector : ℕ
entries_per_sector = 7

pub record JournalEntry : Type 0 where
  pub tx_id : ℕ
  pub op_type : ℕ
  pub status : ℕ
  pub target_cluster : ℕ
  pub level_id : ℕ
  pub timestamp : ℕ
  pub metadata : String
  pub checksum : ℕ

abbrev pub empty_entry : JournalEntry
empty_entry = record {
  tx_id = 0;
  op_type = 0;
  status = 0;
  target_cluster = 0;
  level_id = 0;
  timestamp = 0;
  metadata = [];
  checksum = 0;
}

abbrev pub type_free : ℕ
type_free = 0

abbrev pub type_file : ℕ
type_file = 1

-- The fields of a directory's entry that the journal reads.
pub record DirEntry : Type 0 where
  pub name : String
  pub type_of : ℕ

pub record Journal : Type 0 where
  pub sectors : List (List JournalEntry)
  pub current_tx_id : ℕ
  pub journal_head : ℕ
  pub last_tx_id : ℕ
  pub dirs : ℕ → ℕ → List DirEntry
  pub readable : ℕ → Bool

abbrev pub journal_sectors : Journal → ℕ
journal_sectors j = length j.sectors

-- The constructor, over the journal on the disk.
unfoldable pub open_journal : Journal → Journal
open_journal j = record j { current_tx_id = j.last_tx_id; journal_head = 0 }

abbrev pub crc64_poly : ℕ
crc64_poly = 0xC96C_5795_D787_0F42

unfoldable pub crc_bits : ℕ → ℕ → ℕ
crc_bits zero crc = crc
crc_bits (suc n) crc =
    crc_bits n (if bit_and crc 1 == 1 then bit_xor (crc / 2) crc64_poly else crc / 2)

unfoldable pub crc_bytes : List ℕ → ℕ → ℕ
crc_bytes [] crc = crc
crc_bytes (b ∷ bs) crc = crc_bytes bs (crc_bits 8 (bit_xor crc b))

unfoldable pub calculate_crc64 : List ℕ → ℕ
calculate_crc64 data_bytes =
    bit_xor (crc_bytes data_bytes 0xFFFF_FFFF_FFFF_FFFF) 0xFFFF_FFFF_FFFF_FFFF

abbrev pub padded : ℕ → List ℕ → List ℕ
padded zero s = []
padded (suc n) [] = 0 ∷ padded n []
padded (suc n) (c ∷ cs) = c ∷ padded n cs

-- The entry's 64 bytes in front of its checksum.
unfoldable pub entry_bytes : JournalEntry → List ℕ
entry_bytes e =
    to_bytes 8 e.tx_id
    ++ to_bytes 4 e.op_type
    ++ to_bytes 4 e.status
    ++ to_bytes 8 e.target_cluster
    ++ to_bytes 8 e.level_id
    ++ to_bytes 8 e.timestamp
    ++ padded 24 e.metadata

unfoldable pub checksum_of : JournalEntry → ℕ
checksum_of e = calculate_crc64 (entry_bytes e)

abbrev pub with_checksum : JournalEntry → JournalEntry
with_checksum e = record e { checksum = checksum_of e }

abbrev pub put_at {ℓ} : {A : Type ℓ} → ℕ → A → List A → List A
put_at n a [] = []
put_at zero a (x ∷ xs) = a ∷ xs
put_at (suc n) a (x ∷ xs) = x ∷ put_at n a xs

-- The element at a place changed.
abbrev pub change_at {ℓ} : {A : Type ℓ} → ℕ → (A → A) → List A → List A
change_at n f [] = []
change_at zero f (x ∷ xs) = f x ∷ xs
change_at (suc n) f (x ∷ xs) = x ∷ change_at n f xs

-- The entry that logOperation writes; strncpy copies up to 23 characters.
unfoldable pub new_entry : ℕ → ℕ → ℕ → ℕ → String → JournalEntry
new_entry tx_id now op_type target_cluster metadata = with_checksum (record {
  tx_id = tx_id;
  op_type = op_type;
  status = j_pending;
  target_cluster = target_cluster;
  level_id = 0;
  timestamp = now;
  metadata = take 23 (c_string metadata);
  checksum = 0;
})

unfoldable pub log_operation : ℕ → ℕ → ℕ → String → Journal → ℕ × Journal
log_operation now op_type target_cluster metadata j =
    let tx_id = (j.current_tx_id + 1) % 2 ^ 64 in
    let entry = new_entry tx_id now op_type target_cluster metadata in
    (
      tx_id,
      record j {
        current_tx_id = tx_id;
        sectors =
            change_at (j.journal_head / entries_per_sector)
              (put_at (j.journal_head % entries_per_sector) entry) j.sectors;
        journal_head = (j.journal_head + 1) % (journal_sectors j * entries_per_sector);
      },
    )

abbrev pub committed : JournalEntry → JournalEntry
committed e = with_checksum (record e { status = j_committed })

-- The loop over the entries of a sector; `none` when it goes on to the next sector.
unfoldable pub commit_in_sector : ℕ → List JournalEntry → Option (List JournalEntry)
commit_in_sector tx_id [] = none
commit_in_sector tx_id (e ∷ es) =
    if e.tx_id == tx_id
    then some (committed e ∷ es)
    else elim (commit_in_sector tx_id es) [ none ↦ none | some es' ↦ some (e ∷ es') ]

unfoldable pub commit_in_sectors : ℕ → List (List JournalEntry) → Option (List (List JournalEntry))
commit_in_sectors tx_id [] = none
commit_in_sectors tx_id (s ∷ ss) = elim (commit_in_sector tx_id s) [
  | some s' ↦ some (s' ∷ ss)
  | none ↦ elim (commit_in_sectors tx_id ss) [ none ↦ none | some ss' ↦ some (s ∷ ss') ]
]

unfoldable pub commit_operation : ℕ → Journal → Journal
commit_operation tx_id j = elim (commit_in_sectors tx_id j.sectors) [
  | none ↦ j
  | some sectors ↦ record j { sectors = sectors; last_tx_id = tx_id }
]

abbrev pub clear_entry : ℕ → JournalEntry → JournalEntry
clear_entry older_than e =
    if e.status == j_committed && ltb e.tx_id older_than then empty_entry else e

-- A sector that is not modified is not written back.
unfoldable pub clear_old_entries : ℕ → Journal → Journal
clear_old_entries older_than j = record j { sectors = map (map (clear_entry older_than)) j.sectors }
