-- ===== src/Tasks/Handler/Ending.antt =====
-- Every task ends.
use level_fs.Base.{
  ℕ, zero, suc, ◌+◌, ◌%◌, ◌^◌, ◌≤◌, ◌<◌, ◌≡◌, refl, sym, ap, subst, ◌∙◌, ◌⊎◌, inl, inr, ◌==◌, ==_ne,
  if◌then◌else◌, List, [], ◌∷◌, Option, none, some, true, false, lookup, lookup-insert, insert,
  length, String, Bool-cases, Option-cases, arith,
}
use level_fs.Tasks.Handler.{
  Phase, ready, in_task, done, TaskHandler, run_background, next_phase, is_finished,
  cleanup_completed, get_task_status, Event, submit, turn, cleanup, perform, perform_all, advance,
}
use level_fs.Tasks.Handler.Progress.{
  Matches, InStep, run_background-InStep, advance-InStep, cleanup_completed-InStep, advance-some,
  advance_missing, advance-none,
}

perform-InStep :
    (e : Event) (h : TaskHandler) → h.next_task_id + 1 < 2 ^ 32 → InStep h → InStep (perform e h)
unfolding perform
perform-InStep (submit name now) h bound v = run_background-InStep name now h bound v
perform-InStep (turn id outcome now) h bound v = advance-InStep id outcome now h v
perform-InStep cleanup h bound v = cleanup_completed-InStep h v

-- How many turns the thread of a task gets.
abbrev pub turns : ℕ → List Event → ℕ
turns id [] = 0
turns id ((turn k outcome now) ∷ es) = (if k == id then 1 else 0) + turns id es
turns id (e ∷ es) = turns id es

advance-next :
    (id : ℕ) (outcome : Option String) (now : ℕ) (h : TaskHandler)
    → InStep h
    → (advance id outcome now h).next_task_id ≡ h.next_task_id
advance-next id outcome now h v = elim (Option-cases (lookup id h.threads)) [
  | inl e ↦ rw (advance-none id outcome now h e) refl
  | inr (p, e) ↦ elim (Option-cases (lookup id h.tasks)) [
    | inl f ↦ rw (advance_missing id outcome now h p e f) refl
    | inr (t, f) ↦ rw (advance-some id outcome now h p t e f) refl
  ]
]

perform-next :
    (e : Event) (h : TaskHandler)
    → h.next_task_id + 1 < 2 ^ 32
    → InStep h
    → (perform e h).next_task_id ≤ h.next_task_id + 1
unfolding perform run_background cleanup_completed
perform-next (submit name now) h bound v =
    let next : (h.next_task_id + 1) % 2 ^ 32 ≡ h.next_task_id + 1 = grind arith in
    omega (arith, next)
perform-next (turn id outcome now) h bound v = omega (arith, advance-next id outcome now h v)
perform-next cleanup h bound v = omega arith

advance_put :
    (k : ℕ) (outcome : Option String) (now : ℕ) (h : TaskHandler) (q : Phase)
    → lookup k h.threads ≡ some q
    → (advance k outcome now h).threads ≡ insert k (next_phase q) h.threads
advance_put k outcome now h q e = elim (Option-cases (lookup k h.tasks)) [
  | inl f ↦ rw (advance_missing k outcome now h q e f) refl
  | inr (t, f) ↦ rw (advance-some k outcome now h q t e f) refl
]

same_phase :
    (k id : ℕ) (threads : List (ℕ × Phase)) (p q : Phase)
    → lookup id threads ≡ some p
    → lookup k threads ≡ some q
    → k ≡ id
    → q ≡ p
same_phase k id threads p q e f at = cc (ap (λ j. lookup j threads) at)

advance-threads :
    (k id : ℕ) (outcome : Option String) (now : ℕ) (h : TaskHandler) (p : Phase)
    → lookup id h.threads ≡ some p
    → lookup id (advance k outcome now h).threads ≡ some (if k == id then next_phase p else p)
advance-threads k id outcome now h p e = elim (Option-cases (lookup k h.threads)) [
  | inl f ↦
      let other : (k == id) ≡ false = ==_ne k id (λ at. cc (ap (λ j. lookup j h.threads) at)) in
      rw (advance-none k outcome now h f, other) e
  | inr (q, f) ↦
      rw (advance_put k outcome now h q f, lookup-insert k id (next_phase q) h.threads)
        (elim (Bool-cases (k == id)) [
          | inl same ↦ rw same (
              ap (λ r. some (next_phase r))
                (same_phase k id h.threads p q e f (ground (arith, same))))
          | inr other ↦ rw other e
        ])
]

-- The phase after some turns.
abbrev after : ℕ → Phase → Phase
after zero p = p
after (suc n) p = after n (next_phase p)

after-done : (n : ℕ) → after n done ≡ done
after-done zero = refl
after-done (suc n) = after-done n

next_next : (p : Phase) → next_phase (next_phase p) ≡ done
next_next ready = refl
next_next in_task = refl
next_next done = refl

after_two : (n : ℕ) (p : Phase) → 2 ≤ n → after n p ≡ done
after_two zero p h = absurd (omega (arith, h))
after_two (suc zero) p h = absurd (omega (arith, h))
after_two (suc (suc n)) p h = ap (after n) (next_next p) ∙ after-done n

perform-threads :
    (e : Event) (id : ℕ) (h : TaskHandler) (p : Phase)
    → InStep h
    → lookup id h.threads ≡ some p
    → lookup id (perform e h).threads ≡ some (after (turns id (e ∷ [])) p)
unfolding perform run_background cleanup_completed
perform-threads (submit name now) id h p v e =
    let other : (h.next_task_id == id) ≡ false =
      ==_ne h.next_task_id id (λ at. cc (v.fresh id (omega (arith, at)))) in
    lookup-insert h.next_task_id id ready h.threads ∙ rw other e
perform-threads (turn k outcome now) id h p v e =
    advance-threads k id outcome now h p e
    ∙ elim (Bool-cases (k == id)) [ inl same ↦ rw same refl | inr other ↦ rw other refl ]
perform-threads cleanup id h p v e = e

turns_first :
    (e : Event) (es : List Event) (id : ℕ) → turns id (e ∷ es) ≡ turns id (e ∷ []) + turns id es
turns_first (submit name now) es id = omega arith
turns_first (turn k outcome now) es id = omega arith
turns_first cleanup es id = omega arith

after-add : (m n : ℕ) (p : Phase) → after n (after m p) ≡ after (m + n) p
after-add zero n p = let plain : 0 + n ≡ n = omega arith in rw plain refl
after-add (suc m) n p =
    let next : suc m + n ≡ suc (m + n) = omega arith in rw next (after-add m n (next_phase p))

perform_all-InStep :
    (es : List Event) (h : TaskHandler)
    → h.next_task_id + length es < 2 ^ 32
    → InStep h
    → InStep (perform_all es h)
unfolding perform_all
perform_all-InStep [] h bound v = v
perform_all-InStep (e ∷ es) h bound v =
    let small : h.next_task_id + 1 < 2 ^ 32 = omega (arith, bound) in
    perform_all-InStep es (perform e h) (omega (arith, bound, perform-next e h small v))
      (perform-InStep e h small v)

perform_all-threads :
    (es : List Event) (id : ℕ) (h : TaskHandler) (p : Phase)
    → h.next_task_id + length es < 2 ^ 32
    → InStep h
    → lookup id h.threads ≡ some p
    → lookup id (perform_all es h).threads ≡ some (after (turns id es) p)
unfolding perform_all
perform_all-threads [] id h p bound v e = e
perform_all-threads (e ∷ es) id h p bound v at =
    let small : h.next_task_id + 1 < 2 ^ 32 = omega (arith, bound) in
    perform_all-threads es id (perform e h) (after (turns id (e ∷ [])) p)
      (omega (arith, bound, perform-next e h small v)) (perform-InStep e h small v)
      (perform-threads e id h p v at)
    ∙ ap some (after-add (turns id (e ∷ [])) (turns id es) p)
    ∙ ap (λ n. some (after n p)) (sym (turns_first e es id))

ended_status :
    (id : ℕ) (h : TaskHandler)
    → Matches (some done) (lookup id h.tasks)
    → (lookup id h.tasks ≡ none) ⊎ (is_finished (get_task_status id h) ≡ true)
unfolding get_task_status
ended_status id h m = elim (Option-cases (lookup id h.tasks)) [
  | inl e ↦ inl e
  | inr (t, e) ↦ inr (rw (e, get_task_status) (rw e at m))
]

-- A task whose thread gets two turns ends, whatever phase it is in and whatever else happens in
-- between: in a handler whose threads and table are in step, after any events, too few for the
-- identifiers to wrap around, of which two at least are turns of its thread, the task is completed or
-- failed, or was cleaned up.
pub perform_all-is_finished :
    (es : List Event) (id : ℕ) (h : TaskHandler) (p : Phase)
    → InStep h
    → h.next_task_id + length es < 2 ^ 32
    → lookup id h.threads ≡ some p
    → 2 ≤ turns id es
    → (lookup id (perform_all es h).tasks ≡ none)
      ⊎ (is_finished (get_task_status id (perform_all es h)) ≡ true)
perform_all-is_finished es id h p v bound at enough =
    let final = perform_all es h in
    let phase =
      perform_all-threads es id h p bound v at ∙ ap some (after_two (turns id es) p enough) in
    ended_status id final (
      subst (λ (o : Option Phase). Matches o (lookup id final.tasks)) phase
        ((perform_all-InStep es h bound v).matched id))
