-- ===== src/Journal/Recovery.antt =====
-- replayJournal and the replay functions of class Journal in src/journal.hpp.
pub mod Replayed
use level_fs.Base.{
  ℕ, zero, suc, ◌+◌, ◌*◌, ◌==◌, if◌then◌else◌, List, [], ◌∷◌, Option, none, some, Bool, true, false,
  ◌&&◌, ◌||◌, not, String, list_eq, is_empty, any,
}
use level_fs.Navigation.Buffer.{c_string}
use level_fs.Journal.{
  JournalEntry, DirEntry, Journal, type_free, type_file, j_pending, j_committed, j_aborted,
  checksum_of,
}

abbrev pub Dirs : Type 0
Dirs = ℕ → ℕ → List DirEntry

abbrev pub type_leveled_dir : ℕ
type_leveled_dir = 2

-- The search of `n` sectors of a cluster from the sector `i`.
unfoldable pub any_in_cluster : (DirEntry → Bool) → Dirs → ℕ → ℕ → ℕ → Bool
any_in_cluster p dirs cluster zero i = false
any_in_cluster p dirs cluster (suc n) i =
    any p (dirs cluster i) || any_in_cluster p dirs cluster n (i + 1)

unfoldable pub replay_create : Dirs → JournalEntry → Bool
replay_create dirs entry =
    let filename = c_string entry.metadata in
    if is_empty filename
    then false
    else any_in_cluster (λ e. e.type_of == type_file && list_eq e.name filename) dirs
        entry.target_cluster 8 0

unfoldable pub replay_mkdir : Dirs → JournalEntry → Bool
replay_mkdir dirs entry =
    let foldername = c_string entry.metadata in
    if is_empty foldername
    then false
    else any_in_cluster (λ e. e.type_of == type_leveled_dir && list_eq e.name foldername) dirs
        entry.target_cluster 8 0

unfoldable pub all_readable : (ℕ → Bool) → ℕ → ℕ → Bool
all_readable readable zero sector = true
all_readable readable (suc n) sector = readable sector && all_readable readable n (sector + 1)

unfoldable pub replay_update_dir : (ℕ → Bool) → JournalEntry → Bool
replay_update_dir readable entry = all_readable readable 8 (entry.target_cluster * 8)

-- The first entry of the name that is not free is freed; `none` when the sector has none.
unfoldable pub free_named : String → List DirEntry → Option (List DirEntry)
free_named filename [] = none
free_named filename (e ∷ es) =
    if not (e.type_of == type_free) && list_eq e.name filename
    then some (record e { type_of = type_free } ∷ es)
    else elim (free_named filename es) [ none ↦ none | some es' ↦ some (e ∷ es') ]

unfoldable pub delete_from : String → ℕ → ℕ → ℕ → Dirs → Dirs
delete_from filename cluster zero i dirs = dirs
delete_from filename cluster (suc n) i dirs = elim (free_named filename (dirs cluster i)) [
  | none ↦ delete_from filename cluster n (i + 1) dirs
  | some es ↦ λ c k. if c == cluster && k == i then es else dirs c k
]

unfoldable pub replay_delete : Dirs → JournalEntry → Bool × Dirs
replay_delete dirs entry =
    let filename = c_string entry.metadata in
    if is_empty filename
    then (false, dirs)
    else (true, delete_from filename entry.target_cluster 8 0 dirs)

-- OP_CREATE 1, OP_WRITE 2, OP_DELETE 3, OP_UPDATE_DIR 4, OP_MKDIR 5
unfoldable pub replay_operation : (ℕ → Bool) → Dirs → JournalEntry → Bool × Dirs
replay_operation readable dirs entry =
    if entry.op_type == 1
    then (replay_create dirs entry, dirs)
    else if entry.op_type == 2
    then (true, dirs)
    else if entry.op_type == 3
    then replay_delete dirs entry
    else if entry.op_type == 4
    then (replay_update_dir readable entry, dirs)
    else if entry.op_type == 5
    then (replay_mkdir dirs entry, dirs)
    else (false, dirs)

-- The entries that the loop leaves alone: empty, corrupted or not pending.
abbrev pub is_settled : JournalEntry → Bool
is_settled entry =
    entry.tx_id == 0 || not (entry.checksum == checksum_of entry) || not (entry.status == j_pending)

-- The checksum is not computed again.
unfoldable pub replay_entry : (ℕ → Bool) → Dirs → JournalEntry → Dirs × JournalEntry
replay_entry readable dirs entry = if is_settled entry then (dirs, entry) else (
  (replay_operation readable dirs entry).1,
  record entry {
    status = if (replay_operation readable dirs entry).0 then j_committed else j_aborted;
  },
)

unfoldable pub replay_sector : (ℕ → Bool) → Dirs → List JournalEntry → Dirs × List JournalEntry
replay_sector readable dirs [] = (dirs, [])
replay_sector readable dirs (e ∷ es) =
    let (dirs1, e') = replay_entry readable dirs e in
    let (dirs2, es') = replay_sector readable dirs1 es in (dirs2, e' ∷ es')

unfoldable pub replay_sectors :
    (ℕ → Bool) → Dirs → List (List JournalEntry) → Dirs × List (List JournalEntry)
replay_sectors readable dirs [] = (dirs, [])
replay_sectors readable dirs (s ∷ ss) =
    let (dirs1, s') = replay_sector readable dirs s in
    let (dirs2, ss') = replay_sectors readable dirs1 ss in (dirs2, s' ∷ ss')

unfoldable pub replay_journal : Journal → Journal
replay_journal j =
    let (dirs, sectors) = replay_sectors j.readable j.dirs j.sectors in
    record j { dirs = dirs; sectors = sectors }
