-- ===== src/Tasks/Handler/Progress.antt =====
-- Threads and the table stay in step, and every task that is run ends.
use level_fs.Base.{
  ℕ, ◌+◌, ◌%◌, ◌^◌, ◌≤◌, ◌<◌, ◌≡◌, refl, sym, ap, ◌∙◌, inl, inr, ◌==◌, List, Option, none, some,
  true, not, passing, lookup, lookup-insert, lookup-keep, insert, String, keys,
  keys-insert-Distinct, keys-keep-Distinct, Distinct, if_false, ==_ne, Bool-cases, Option-cases,
  arith,
}
use level_fs.Tasks.Handler.{
  TaskStatus, task_pending, task_running, BackgroundTask, Phase, ready, in_task, done, TaskHandler,
  run_background, set_task, next_phase, phase_change, advance, is_finished, unfinished,
  cleanup_completed,
}

abbrev pub StatusOf : Phase → TaskStatus → Type 0
StatusOf ready s = s ≡ task_pending
StatusOf in_task s = s ≡ task_running
StatusOf done s = is_finished s ≡ true

-- What a thread's phase says of the task; only a finished one can be missing.
abbrev pub Matches : Option Phase → Option BackgroundTask → Type 0
Matches none none = Unit {0}
Matches none (some t) = ⊥
Matches (some done) none = Unit {0}
Matches (some ready) none = ⊥
Matches (some in_task) none = ⊥
Matches (some phase) (some t) = StatusOf phase t.status

pub record InStep (h : TaskHandler) : Type 0 where
  pub matched : (id : ℕ) → Matches (lookup id h.threads) (lookup id h.tasks)
  pub fresh : (id : ℕ) → h.next_task_id ≤ id → lookup id h.threads ≡ none
  pub unique : Distinct (keys h.tasks)

Matches-some : (p : Phase) (t : BackgroundTask) → StatusOf p t.status → Matches (some p) (some t)
Matches-some ready t h = h
Matches-some in_task t h = h
Matches-some done t h = h

some-Matches : (p : Phase) (t : BackgroundTask) → Matches (some p) (some t) → StatusOf p t.status
some-Matches ready t h = h
some-Matches in_task t h = h
some-Matches done t h = h

module _ (p : Phase) (k id : ℕ) (threads : List (ℕ × Phase))
    (tasks : List (ℕ × BackgroundTask)) where
  Matches-put :
      (t : BackgroundTask)
      → StatusOf p t.status
      → Matches (lookup id threads) (lookup id tasks)
      → Matches (lookup id (insert k p threads)) (lookup id (insert k t tasks))
  Matches-put t h m =
      rw (lookup-insert k id p threads, lookup-insert k id t tasks)
        (elim (Bool-cases (k == id)) [
          | inl same ↦ rw same (Matches-some p t h)
          | inr other ↦ rw other m
        ])

Matches-done :
    (k id : ℕ) (threads : List (ℕ × Phase)) (tasks : List (ℕ × BackgroundTask))
    → lookup k tasks ≡ none
    → Matches (lookup id threads) (lookup id tasks)
    → Matches (lookup id (insert k done threads)) (lookup id tasks)
Matches-done k id threads tasks h m =
    rw (lookup-insert k id done threads) (elim (Bool-cases (k == id)) [
      | inl same ↦
          let at : k ≡ id = ground (arith, same) in
          rw (same, (ap (λ j. lookup j tasks) (sym at) ∙ h)) tt
      | inr other ↦ rw other m
    ])

pub run_background-InStep :
    (name : String) (now : ℕ) (h : TaskHandler)
    → h.next_task_id + 1 < 2 ^ 32
    → InStep h
    → InStep (run_background name now h).0
unfolding run_background
run_background-InStep name now h bound v =
    let next : (h.next_task_id + 1) % 2 ^ 32 ≡ h.next_task_id + 1 = grind arith in
    record {
      matched = λ id. Matches-put ready h.next_task_id id h.threads h.tasks _ refl (v.matched id);
      fresh = λ id le.
          lookup-insert h.next_task_id id ready h.threads
          ∙ if_false (h.next_task_id == id) (some ready) (lookup id h.threads)
              (==_ne h.next_task_id id (λ e. omega (arith, le, e, next)))
          ∙ v.fresh id (omega (arith, le, next));
      unique = keys-insert-Distinct h.next_task_id _ h.tasks v.unique;
    }

phase_change-StatusOf :
    (p : Phase) (outcome : Option String) (now : ℕ) (t : BackgroundTask)
    → StatusOf p t.status
    → StatusOf (next_phase p) (phase_change p outcome now t).status
phase_change-StatusOf ready outcome now t h = refl
phase_change-StatusOf in_task none now t h = refl
phase_change-StatusOf in_task (some what) now t h = refl
phase_change-StatusOf done outcome now t h = h

missing-done : (p : Phase) → Matches (some p) none → p ≡ done
missing-done ready h = elim h [ ]
missing-done in_task h = elim h [ ]
missing-done done h = refl

-- What a turn of a thread that is there leaves.
pub advance-some :
    (id : ℕ) (outcome : Option String) (now : ℕ) (h : TaskHandler) (p : Phase) (t : BackgroundTask)
    → lookup id h.threads ≡ some p
    → lookup id h.tasks ≡ some t
    → advance id outcome now h ≡ record h {
      tasks = insert id (phase_change p outcome now t) h.tasks;
      threads = insert id (next_phase p) h.threads;
    }
unfolding advance set_task
advance-some id outcome now h p t e f = rw (e, advance) (rw (f, set_task) refl)

pub advance_missing :
    (id : ℕ) (outcome : Option String) (now : ℕ) (h : TaskHandler) (p : Phase)
    → lookup id h.threads ≡ some p
    → lookup id h.tasks ≡ none
    → advance id outcome now h ≡ record h { threads = insert id (next_phase p) h.threads }
unfolding advance set_task
advance_missing id outcome now h p e f = rw (e, advance) (rw (f, set_task) refl)

pub advance-none :
    (id : ℕ) (outcome : Option String) (now : ℕ) (h : TaskHandler)
    → lookup id h.threads ≡ none
    → advance id outcome now h ≡ h
unfolding advance
advance-none id outcome now h e = rw (e, advance) refl

-- The identifiers not given out stay without a thread.
fresh-insert :
    (k : ℕ) (old new : Phase) (h : TaskHandler)
    → InStep h
    → lookup k h.threads ≡ some old
    → (id : ℕ) → h.next_task_id ≤ id
    → lookup id (insert k new h.threads) ≡ none
fresh-insert k old new h v e id le =
    lookup-insert k id new h.threads
    ∙ if_false (k == id) (some new) (lookup id h.threads)
        (==_ne k id (λ same. cc (v.fresh id le, ap (λ j. lookup j h.threads) same)))
    ∙ v.fresh id le

pub advance-InStep :
    (id : ℕ) (outcome : Option String) (now : ℕ) (h : TaskHandler)
    → InStep h
    → InStep (advance id outcome now h)
advance-InStep id outcome now h v = elim (Option-cases (lookup id h.threads)) [
  | inl e ↦ rw (advance-none id outcome now h e) v
  | inr (p, e) ↦ elim (Option-cases (lookup id h.tasks)) [
    | inl f ↦
        let is_done : p ≡ done = missing-done p (rw (e, f) at (v.matched id)) in
        rw (advance_missing id outcome now h p e f, is_done)
          (record {
            matched = λ j. Matches-done id j h.threads h.tasks f (v.matched j);
            fresh = fresh-insert id p done h v e;
            unique = v.unique;
          })
    | inr (t, f) ↦
        let status = some-Matches p t (rw (e, f) at (v.matched id)) in
        rw (advance-some id outcome now h p t e f) (record {
          matched = λ j.
              Matches-put (next_phase p) id j h.threads h.tasks (phase_change p outcome now t)
                (phase_change-StatusOf p outcome now t status) (v.matched j);
          fresh = fresh-insert id p (next_phase p) h v e;
          unique = keys-insert-Distinct id (phase_change p outcome now t) h.tasks v.unique;
        })
  ]
]

Matches-passing :
    (o : Option Phase) (t : Option BackgroundTask) → Matches o t → Matches o (passing unfinished t)
Matches-passing none none h = tt
Matches-passing none (some t) h = elim h [ ]
Matches-passing (some done) none h = tt
Matches-passing (some ready) none h = elim h [ ]
Matches-passing (some in_task) none h = elim h [ ]
Matches-passing (some ready) (some t) h = rw (ap (λ s. not (is_finished s)) h) h
Matches-passing (some in_task) (some t) h = rw (ap (λ s. not (is_finished s)) h) h
Matches-passing (some done) (some t) h = rw (ap not h) tt

pub cleanup_completed-InStep : (h : TaskHandler) → InStep h → InStep (cleanup_completed h)
unfolding cleanup_completed
cleanup_completed-InStep h v = record {
  matched = λ id.
      rw (lookup-keep unfinished id h.tasks v.unique)
        (Matches-passing (lookup id h.threads) (lookup id h.tasks) (v.matched id));
  fresh = v.fresh;
  unique = keys-keep-Distinct unfinished h.tasks v.unique;
}
