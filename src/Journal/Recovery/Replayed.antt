-- ===== src/Journal/Recovery/Replayed.antt =====
-- The entries of the journal before and after replayJournal.
use level_fs.Base.{ℕ, ◌≡◌, refl, List, [], ◌∷◌, Bool, true, arith, All, Bool-cases, inl, inr}
use level_fs.Journal.{JournalEntry, Journal}
use level_fs.Journal.Recovery.{
  Dirs, is_settled, replay_operation, replay_entry, replay_sector, replay_sectors, replay_journal,
}

abbrev pub IsSettled : JournalEntry → Type 0
IsSettled e = is_settled e ≡ true

abbrev pub AllSettled : List (List JournalEntry) → Type 0
AllSettled = All (All IsSettled)

replay_entry-IsSettled :
    (readable : ℕ → Bool) (dirs : Dirs) (e : JournalEntry)
    → IsSettled (replay_entry readable dirs e).1
unfolding replay_entry
replay_entry-IsSettled readable dirs e = elim (Bool-cases (is_settled e)) [
  | inl s ↦ rw s s
  | inr s ↦ elim (Bool-cases (replay_operation readable dirs e).0) [
    | inl success ↦ rw (s, success) (ground arith)
    | inr failure ↦ rw (s, failure) (ground arith)
  ]
]

replay_entry_settled :
    (readable : ℕ → Bool) (dirs : Dirs) (e : JournalEntry)
    → IsSettled e
    → replay_entry readable dirs e ≡ (dirs, e)
unfolding replay_entry
replay_entry_settled readable dirs e s = rw s refl

replay_sector-IsSettled :
    (readable : ℕ → Bool) (dirs : Dirs) (es : List JournalEntry)
    → All IsSettled (replay_sector readable dirs es).1
unfolding replay_sector
replay_sector-IsSettled readable dirs [] = tt
replay_sector-IsSettled readable dirs (e ∷ es) = (
  replay_entry-IsSettled readable dirs e,
  replay_sector-IsSettled readable (replay_entry readable dirs e).0 es,
)

replay_sector_settled :
    (readable : ℕ → Bool) (dirs : Dirs) (es : List JournalEntry)
    → All IsSettled es
    → replay_sector readable dirs es ≡ (dirs, es)
unfolding replay_sector
replay_sector_settled readable dirs [] _ = refl
replay_sector_settled readable dirs (e ∷ es) (s, ss) =
    rw (replay_entry_settled readable dirs e s, replay_sector_settled readable dirs es ss)

replay_sectors-AllSettled :
    (readable : ℕ → Bool) (dirs : Dirs) (ss : List (List JournalEntry))
    → AllSettled (replay_sectors readable dirs ss).1
unfolding replay_sectors
replay_sectors-AllSettled readable dirs [] = tt
replay_sectors-AllSettled readable dirs (s ∷ ss) = (
  replay_sector-IsSettled readable dirs s,
  replay_sectors-AllSettled readable (replay_sector readable dirs s).0 ss,
)

replay_sectors_settled :
    (readable : ℕ → Bool) (dirs : Dirs) (ss : List (List JournalEntry))
    → AllSettled ss
    → replay_sectors readable dirs ss ≡ (dirs, ss)
unfolding replay_sectors
replay_sectors_settled readable dirs [] _ = refl
replay_sectors_settled readable dirs (s ∷ ss) (h, hs) =
    rw (replay_sector_settled readable dirs s h, replay_sectors_settled readable dirs ss hs)

-- After a replay no entry of the journal is pending with a transaction's number and a checksum that
-- fits, and a second replay changes neither the journal nor a directory.
pub replay_journal-AllSettled :
    (j : Journal)
    → AllSettled (replay_journal j).sectors × (replay_journal (replay_journal j) ≡ replay_journal j)
unfolding replay_journal
replay_journal-AllSettled j =
    let settled = replay_sectors-AllSettled j.readable j.dirs j.sectors in
    (
      settled,
      rw (
          replay_sectors_settled j.readable (replay_sectors j.readable j.dirs j.sectors).0
            (replay_sectors j.readable j.dirs j.sectors).1 settled),
    )
