-- ===== src/Scheduler/Table/Histories.antt =====
-- The invariant, the handles and the stopped processes over histories of calls.
use level_fs.Base.{
  ℕ, ◌+◌, ◌*◌, ◌^◌, ◌<◌, ◌≤◌, ◌≡◌, refl, sym, ap, subst, ◌∙◌, ◌==◌, if◌then◌else◌, List, [], ◌∷◌,
  Option, none, some, keep, lookup, insert, length, length-append, All, All-keep, keys,
  keys-insert-Distinct, keys-keep-Distinct, Distinct, arith, Bool-cases, inl, inr,
}
use level_fs.Scheduler.Table.{
  ManagedProcess, Entries, Scheduler, update_entries, running, handles_of_stopped,
}
use level_fs.Scheduler.Table.Calls.{Call, perform, perform_all, started}
use level_fs.Scheduler.Table.Managed.{
  IsEntry, IsManaged, All-insert, All-lookup, All-next, keys-update_entries, update_entries-IsEntry,
  fresh_key,
}
use level_fs.Scheduler.Table.Steps.{
  Step, idle, spawned, changed, killed, polled, cleaned, IsAnswered, perform-Step,
  update_single_process_status-Continues,
}

-- The parts of the invariant, on a table given by an equation.
module _ {s' : Scheduler} (m : Entries) (same : s'.processes ≡ m) where
  build : 0 < s'.next_pid → All (IsEntry s'.next_pid) m → Distinct (keys m) → IsManaged s'
  build one es d = record {
    from_one = one;
    entries = subst (λ l. All (IsEntry s'.next_pid) l) (sym same) es;
    unique = subst (λ l. Distinct (keys l)) (sym same) d;
  }

pub Step-IsManaged : {s s' : Scheduler} {r : ℕ} → Step s s' r → IsManaged s → IsManaged s'
Step-IsManaged {s} {s'} (idle m c low high r) v =
    build s.processes m (omega (arith, v.from_one))
      (All-next s.next_pid s'.next_pid s.processes low v.entries) v.unique
Step-IsManaged {s} {s'} (spawned proc m c next r own real) v =
    build (insert s.next_pid proc s.processes) m (omega arith)
      (All-insert (IsEntry s'.next_pid) s.next_pid proc
        (record { below = omega arith; own_pid = own; handled = λ _. real }) s.processes
        (All-next s.next_pid s'.next_pid s.processes (omega arith) v.entries))
      (keys-insert-Distinct s.next_pid proc s.processes v.unique)
Step-IsManaged {s} {s'} (changed pid old new e m c next r on) v =
    let h = All-lookup (IsEntry s.next_pid) pid old s.processes v.entries e in
    build (insert pid new s.processes) m (omega (arith, v.from_one))
      (All-insert (IsEntry s'.next_pid) pid new
        (record {
          below = omega (arith, h.below);
          own_pid = on.same_pid ∙ h.own_pid;
          handled = λ run zero_handle. elim (Bool-cases old.is_running) [
            | inl o ↦ h.handled o (sym on.same_handle ∙ zero_handle)
            | inr o ↦ cc (on.not_restarted o)
          ];
        })
        s.processes (All-next s.next_pid s'.next_pid s.processes (omega arith) v.entries))
      (keys-insert-Distinct pid new s.processes v.unique)
Step-IsManaged {s} {s'} (killed pid old new e m c next r real null dead own) v =
    let h = All-lookup (IsEntry s.next_pid) pid old s.processes v.entries e in
    build (insert pid new s.processes) m (omega (arith, v.from_one))
      (All-insert (IsEntry s'.next_pid) pid new
        (record { below = omega (arith, h.below); own_pid = own ∙ h.own_pid; handled = λ run. cc })
        s.processes (All-next s.next_pid s'.next_pid s.processes (omega arith) v.entries))
      (keys-insert-Distinct pid new s.processes v.unique)
Step-IsManaged {s} {s'} (polled codes m c next r) v =
    build (update_entries codes s.processes) m (omega (arith, v.from_one))
      (All-next s.next_pid s'.next_pid (update_entries codes s.processes) (omega arith)
        (update_entries-IsEntry codes s.next_pid s.processes v.entries))
      (rw (keys-update_entries codes s.processes) v.unique)
Step-IsManaged {s} {s'} (cleaned codes m c next r) v =
    build (keep running (update_entries codes s.processes)) m (omega (arith, v.from_one))
      (All-next s.next_pid s'.next_pid (keep running (update_entries codes s.processes))
        (omega arith)
        (All-keep (IsEntry s.next_pid) running (update_entries codes s.processes)
          (update_entries-IsEntry codes s.next_pid s.processes v.entries)))
      (keys-keep-Distinct (λ (proc : ManagedProcess). proc.is_running)
        (update_entries codes s.processes) (rw (keys-update_entries codes s.processes) v.unique))

pub Step-next :
    {s s' : Scheduler} {r : ℕ}
    → Step s s' r
    → (s.next_pid ≤ s'.next_pid) × (s'.next_pid ≤ s.next_pid + 1)
Step-next (idle m c low high r) = omega arith
Step-next (spawned proc m c next r own real) = omega arith
Step-next (changed pid old new e m c next r on) = omega arith
Step-next (killed pid old new e m c next r real null dead own) = omega arith
Step-next (polled codes m c next r) = omega arith
Step-next (cleaned codes m c next r) = omega arith

-- Two handles for each process whose handles are still open.
abbrev pub of_process : ManagedProcess → ℕ
of_process proc = if proc.process_handle == 0 then 0 else 2

unfoldable pub held : Entries → ℕ
held [] = 0
held ((pid, proc) ∷ m) = of_process proc + held m

held-insert_new :
    (pid : ℕ) (proc : ManagedProcess) (m : Entries)
    → lookup pid m ≡ none
    → held (insert pid proc m) ≡ held m + of_process proc
unfolding held
held-insert_new pid proc [] h = omega arith
held-insert_new pid proc ((k, p) ∷ m) h = ground (arith, held-insert_new pid proc m)

held-insert_old :
    (pid : ℕ) (old proc : ManagedProcess) (m : Entries)
    → lookup pid m ≡ some old
    → held (insert pid proc m) + of_process old ≡ held m + of_process proc
unfolding held
held-insert_old pid old proc [] h = cc
held-insert_old pid old proc ((k, p) ∷ m) h = ground (arith, held-insert_old pid old proc m)

held-update_entries : (codes : ℕ → Option ℕ) (m : Entries) → held (update_entries codes m) ≡ held m
unfolding held update_entries
held-update_entries codes [] = refl
held-update_entries codes ((pid, proc) ∷ m) = omega (
  arith,
  held-update_entries codes m,
  ap {B = ℕ} (λ h. if h == 0 then 0 else 2)
      (update_single_process_status-Continues codes proc).same_handle,
)

held-keep : (m : Entries) → length (handles_of_stopped m) + held (keep running m) ≡ held m
unfolding held handles_of_stopped
held-keep [] = omega arith
held-keep ((pid, proc) ∷ m) = ground (arith, held-keep m)

-- One step keeps the balance of the handles.
Step-handles :
    {s s' : Scheduler} {r : ℕ}
    → Step s s' r
    → IsManaged s
    → length s'.closed + held s'.processes
      ≡ (length s.closed + held s.processes) + (if r == 0 then 0 else 2)
Step-handles {s} {s'} (idle m c low high r) v = ground (arith, ap held m, ap length c)
Step-handles {s} {s'} (spawned proc m c next r own real) v =
    let new =
      held-insert_new s.next_pid proc s.processes (fresh_key s.next_pid s.processes v.entries) in
    ground (arith, ap held m, ap length c, new, v.from_one)
Step-handles {s} {s'} (changed pid old new e m c next r on) v =
    ground
      (arith, ap held m, ap length c, held-insert_old pid old new s.processes e, on.same_handle)
Step-handles {s} {s'} (killed pid old new e m c next r real null dead own) v = ground (
  arith,
  ap held m,
  ap length c,
  held-insert_old pid old new s.processes e,
  length-append s.closed (old.process_handle ∷ old.thread_handle ∷ []),
)
Step-handles {s} {s'} (polled codes m c next r) v =
    ground (arith, ap held m, ap length c, held-update_entries codes s.processes)
Step-handles {s} {s'} (cleaned codes m c next r) v = ground (
  arith,
  ap held m,
  ap length c,
  held-update_entries codes s.processes,
  held-keep (update_entries codes s.processes),
  length-append s.closed (handles_of_stopped (update_entries codes s.processes)),
)

pub perform_all-next :
    (cs : List Call) (c : Call) (s : Scheduler)
    → Step s (perform c s).0 (perform c s).1
    → s.next_pid + length (c ∷ cs) < 2 ^ 32
    → (perform c s).0.next_pid + length cs < 2 ^ 32
perform_all-next cs c s st bound = omega (arith, Step-next st)

pub perform_all-IsManaged :
    (cs : List Call) (s : Scheduler)
    → All IsAnswered cs
    → s.next_pid + length cs < 2 ^ 32
    → IsManaged s
    → IsManaged (perform_all cs s)
unfolding perform_all
perform_all-IsManaged [] s _ bound v = v
perform_all-IsManaged (c ∷ cs) s (h, hs) bound v =
    let st = perform-Step c s h (omega (arith, bound)) in
    perform_all-IsManaged cs (perform c s).0 hs (perform_all-next cs c s st bound)
      (Step-IsManaged st v)

pub perform_all-handles :
    (cs : List Call) (s : Scheduler)
    → All IsAnswered cs
    → s.next_pid + length cs < 2 ^ 32
    → IsManaged s
    → length (perform_all cs s).closed + held (perform_all cs s).processes
      ≡ (length s.closed + held s.processes) + 2 * started cs s
unfolding perform_all started
perform_all-handles [] s _ bound v = omega arith
perform_all-handles (c ∷ cs) s (h, hs) bound v =
    let st = perform-Step c s h (omega (arith, bound)) in
    let rest =
      perform_all-handles cs (perform c s).0 hs (perform_all-next cs c s st bound)
        (Step-IsManaged st v) in
    ground (arith, rest, Step-handles st v)
