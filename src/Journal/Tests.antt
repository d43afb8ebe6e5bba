-- ===== src/Journal/Tests.antt =====
-- A journal of one sector.
use level_fs.Base.{ℕ, ◌==◌, if◌then◌else◌, [], ◌∷◌, ◌≡◌, refl, some, true, arith, String}
use level_fs.Journal.{Journal, empty_entry, log_operation, commit_operation}
use level_fs.Journal.Recovery.{is_settled, replay_journal}
use level_fs.Journal.Recovery.Replayed.{AllSettled, replay_journal-AllSettled}
use level_fs.Journal.Logging.{IsRing, entry_at}
use level_fs.Journal.Logged.{committed_entry, commit_operation-log_operation}

-- Five transactions ago the number 1 was committed; the head stands at the third place.
abbrev one_sector : Journal
one_sector = record {
  sectors =
      (record empty_entry { tx_id = 1; status = 1 }
        ∷ empty_entry
        ∷ empty_entry
        ∷ empty_entry
        ∷ empty_entry
        ∷ empty_entry
        ∷ empty_entry
        ∷ [])
      ∷ [];
  current_tx_id = 6;
  journal_head = 2;
  last_tx_id = 6;
  dirs = λ c i. [];
  readable = λ s. true;
}

one_sector-IsRing : IsRing one_sector
one_sector-IsRing = record { full = (refl, tt); head_inside = omega arith }

-- "a"
abbrev file_a : String
file_a = 97 ∷ []

commit_operation-log_operation_example :
    let (tx_id, logged) = log_operation 100 1 9 file_a one_sector in
    let entry = committed_entry tx_id 100 1 9 file_a in
    ((i : ℕ)
      → entry_at (commit_operation tx_id logged).sectors i
        ≡ (if i == 2 then some entry else entry_at one_sector.sectors i))
    × ((commit_operation tx_id logged).last_tx_id ≡ tx_id)
    × (is_settled entry ≡ true)
commit_operation-log_operation_example =
    commit_operation-log_operation 100 1 9 file_a one_sector one_sector-IsRing refl

replay_journal-AllSettled_example :
    AllSettled (replay_journal (log_operation 100 3 9 file_a one_sector).1).sectors
    × (replay_journal (replay_journal (log_operation 100 3 9 file_a one_sector).1)
        ≡ replay_journal (log_operation 100 3 9 file_a one_sector).1)
replay_journal-AllSettled_example =
    replay_journal-AllSettled (log_operation 100 3 9 file_a one_sector).1
