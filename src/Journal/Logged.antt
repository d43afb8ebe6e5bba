-- ===== src/Journal/Logged.antt =====
-- logOperation followed by commitOperation.
use level_fs.Base.{
  ℕ, ◌+◌, ◌/◌, ◌%◌, ◌^◌, ◌==◌, if◌then◌else◌, ◌≡◌, refl, ◌∙◌, ap, some, true, arith, String,
  ==_refl, sym, ◌++◌, take,
}
use level_fs.Journal.{
  JournalEntry, Journal, change_at, put_at, new_entry, log_operation, committed, commit_operation,
  checksum_of, entry_bytes, calculate_crc64, padded,
}
use level_fs.Navigation.Buffer.{to_bytes, c_string}
use level_fs.Journal.Recovery.{is_settled}
use level_fs.Journal.Logging.{
  IsRing, entry_at, is_fresh, entry_at-written, written-full, commit_written, length-change_at,
}

-- The number that logOperation gives out, and the entry that it writes.
abbrev pub next_tx_id : Journal → ℕ
next_tx_id j = (j.current_tx_id + 1) % 2 ^ 64

-- Logging writes one place of the ring, the one at the head, and moves the head on in the ring, which
-- stays well formed. The entry written is one that a replay would take up, unless its number is 0.
pub log_operation-IsRing :
    (now op_type target_cluster : ℕ) (metadata : String) (j : Journal)
    → IsRing j
    → let (tx_id, j') = log_operation now op_type target_cluster metadata j in
      let entry = new_entry tx_id now op_type target_cluster metadata in
      (tx_id ≡ next_tx_id j)
      × IsRing j'
      × ((i : ℕ)
          → entry_at j'.sectors i
            ≡ (if i == j.journal_head then some entry else entry_at j.sectors i))
      × (is_settled entry ≡ (tx_id == 0))
unfolding log_operation new_entry checksum_of entry_bytes
log_operation-IsRing now op_type target_cluster metadata j ring =
    let tx_id = next_tx_id j in
    let entry = new_entry tx_id now op_type target_cluster metadata in
    let same_length =
      length-change_at (j.journal_head / 7) (put_at (j.journal_head % 7) entry) j.sectors in
    (
      refl,
      record {
        full = written-full (j.journal_head / 7) (j.journal_head % 7) entry j.sectors ring.full;
        head_inside = rw same_length (omega arith);
      },
      λ i. entry_at-written j.sectors j.journal_head i entry ring.full ring.head_inside,
      rw (==_refl (checksum_of entry)) (ground arith),
    )

new_entry-tx_id :
    (tx_id now op_type target_cluster : ℕ) (metadata : String)
    → (new_entry tx_id now op_type target_cluster metadata).tx_id ≡ tx_id
unfolding new_entry
new_entry-tx_id tx_id now op_type target_cluster metadata = refl

committed-is_settled : (e : JournalEntry) → is_settled (committed e) ≡ true
unfolding checksum_of entry_bytes
committed-is_settled e = ground arith

committed_operation :
    (now op_type target_cluster : ℕ) (metadata : String) (j : Journal)
    → IsRing j
    → is_fresh (next_tx_id j) j.sectors ≡ true
    → commit_operation (next_tx_id j) (log_operation now op_type target_cluster metadata j).1
      ≡ record ((log_operation now op_type target_cluster metadata j).1) {
        sectors =
            change_at
              (j.journal_head / 7)
              (put_at
                (j.journal_head % 7)
                (committed (new_entry (next_tx_id j) now op_type target_cluster metadata)))
              j.sectors;
        last_tx_id = next_tx_id j;
      }
unfolding log_operation commit_operation
committed_operation now op_type target_cluster metadata j ring fresh =
    let entry = new_entry (next_tx_id j) now op_type target_cluster metadata in
    rw (
      commit_written (next_tx_id j) (j.journal_head / 7) (j.journal_head % 7) entry j.sectors fresh
          (new_entry-tx_id (next_tx_id j) now op_type target_cluster metadata) ring.full
          (omega (arith, ring.head_inside)) (omega arith),
      commit_operation,
    )

-- The entry on the disk once an operation is committed, every field written out: the checksum is the
-- CRC-64 of the 64 bytes in front of it, with the new status among them.
abbrev pub committed_entry : ℕ → ℕ → ℕ → ℕ → String → JournalEntry
committed_entry tx_id now op_type target_cluster metadata = record {
  tx_id = tx_id;
  op_type = op_type;
  status = 1;
  target_cluster = target_cluster;
  level_id = 0;
  timestamp = now;
  metadata = take 23 (c_string metadata);
  checksum = calculate_crc64 (
      to_bytes 8 tx_id
      ++ to_bytes 4 op_type
      ++ to_bytes 4 1
      ++ to_bytes 8 target_cluster
      ++ to_bytes 8 0
      ++ to_bytes 8 now
      ++ padded 24 (take 23 (c_string metadata)));
}

committed-new_entry :
    (tx_id now op_type target_cluster : ℕ) (metadata : String)
    → committed (new_entry tx_id now op_type target_cluster metadata)
      ≡ committed_entry tx_id now op_type target_cluster metadata
unfolding new_entry checksum_of entry_bytes
committed-new_entry tx_id now op_type target_cluster metadata = refl

-- An operation that is logged under a new number and then committed: its place of the ring holds the
-- entry with the values that were given, the status committed and the CRC-64 of the bytes in front of
-- the checksum, the other places are as before, and the number is the last transaction's. A replay
-- leaves the entry alone.
pub commit_operation-log_operation :
    (now op_type target_cluster : ℕ) (metadata : String) (j : Journal)
    → IsRing j
    → is_fresh (next_tx_id j) j.sectors ≡ true
    → let (tx_id, logged) = log_operation now op_type target_cluster metadata j in
      let entry = committed_entry tx_id now op_type target_cluster metadata in
      ((i : ℕ)
        → entry_at (commit_operation tx_id logged).sectors i
          ≡ (if i == j.journal_head then some entry else entry_at j.sectors i))
      × ((commit_operation tx_id logged).last_tx_id ≡ tx_id)
      × (is_settled entry ≡ true)
unfolding log_operation
commit_operation-log_operation now op_type target_cluster metadata j ring fresh =
    let tx_id = next_tx_id j in
    let entry = new_entry tx_id now op_type target_cluster metadata in
    let e = committed_operation now op_type target_cluster metadata j ring fresh in
    let same = committed-new_entry tx_id now op_type target_cluster metadata in
    (
      λ i.
          ap (λ (j' : Journal). entry_at j'.sectors i) e
          ∙ entry_at-written j.sectors j.journal_head i (committed entry) ring.full ring.head_inside
          ∙ ap (λ (x : JournalEntry). if i == j.journal_head then some x else entry_at j.sectors i)
              same,
      ap (λ (j' : Journal). j'.last_tx_id) e,
      ap is_settled (sym same) ∙ committed-is_settled entry,
    )
