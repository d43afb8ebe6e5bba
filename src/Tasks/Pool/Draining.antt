-- ===== src/Tasks/Pool/Draining.antt =====
-- A stopped pool runs all its tasks.
use level_fs.Base.{
  ℕ, zero, suc, ◌+◌, ◌*◌, ◌≤◌, ◌<◌, ◌≡◌, Bool-cases, inl, inr, refl, ap, ◌∙◌, ◌==◌, if◌then◌else◌,
  List, [], ◌∷◌, ◌++◌, Bool, true, false, length, All, arith,
}
use level_fs.Tasks.Pool.{
  Worker, waiting, busy, gone, Pool, work_waiting, work, round, rounds, stop_pool,
}

abbrev pub weight : Worker → ℕ
weight waiting = 1
weight (busy task) = 2
weight gone = 0

abbrev pub weights : List Worker → ℕ
weights [] = 0
weights (w ∷ ws) = weight w + weights ws

-- Turns left: three for each task in the queue, those of the workers, and nothing of those that left.
abbrev pub turns_left : List Worker → Pool → ℕ
turns_left ws p = 3 * length p.queue + weights ws

abbrev pub count : ℕ → List ℕ → ℕ
count t [] = 0
count t (x ∷ xs) = (if t == x then 1 else 0) + count t xs

count-append : (t : ℕ) (xs ys : List ℕ) → count t (xs ++ ys) ≡ count t xs + count t ys
count-append t [] ys = omega arith
count-append t (x ∷ xs) ys = omega (arith, count-append t xs ys)

abbrev pub busy_with : ℕ → Worker → ℕ
busy_with t (busy task) = if t == task then 1 else 0
busy_with t _ = 0

abbrev pub all_busy_with : ℕ → List Worker → ℕ
all_busy_with t [] = 0
all_busy_with t (w ∷ ws) = busy_with t w + all_busy_with t ws

-- A worker has left only with the queue empty.
abbrev IsLast : Worker → Pool → Type 0
IsLast gone p = p.queue ≡ []
IsLast _ p = Unit {0}

abbrev AllLast : List Worker → Pool → Type 0
AllLast [] p = Unit {0}
AllLast (w ∷ ws) p = IsLast w p × AllLast ws p

abbrev pub is_gone : Worker → Bool
is_gone gone = true
is_gone _ = false

abbrev alive : List Worker → ℕ
alive [] = 0
alive (w ∷ ws) = (if is_gone w then 0 else 1) + alive ws

record Works (t : ℕ) (w : Worker) (p : Pool) (w' : Worker) (p' : Pool) : Type 0 where
  spent :
      3 * length p'.queue + weight w' + (if is_gone w then 0 else 1) ≤ 3 * length p.queue + weight w
  kept :
      count t p'.finished + busy_with t w' + count t p'.queue
      ≡ count t p.finished + busy_with t w + count t p.queue
  still : p'.stop ≡ true
  last : IsLast w' p'
  shrinks : p.queue ≡ [] → p'.queue ≡ []

leave :
    (stopped : Bool) (t : ℕ) (p : Pool)
    → stopped ≡ true
    → p.stop ≡ true
    → p.queue ≡ []
    → Works t waiting p (if stopped then gone else waiting) p
leave true t p _ h e = record {
  spent = omega arith;
  kept = omega arith;
  still = h;
  last = e;
  shrinks = λ q. q;
}
leave false t p s h e = cc

work_waiting-Works :
    (t : ℕ) (queue : List ℕ) (p : Pool)
    → p.stop ≡ true
    → p.queue ≡ queue
    → Works t waiting p (work_waiting queue p).0 (work_waiting queue p).1
unfolding work_waiting
work_waiting-Works t [] p h e = leave p.stop t p h h e
work_waiting-Works t (task ∷ tasks) p h e = record {
  spent = omega (arith, ap length e);
  kept = omega (arith, ap (count t) e);
  still = h;
  last = tt;
  shrinks = λ q. cc;
}

work-Works :
    (t : ℕ) (w : Worker) (p : Pool)
    → p.stop ≡ true
    → IsLast w p
    → Works t w p (work w p).0 (work w p).1
unfolding work
work-Works t waiting p h l = work_waiting-Works t p.queue p h refl
work-Works t (busy task) p h l = record {
  spent = omega arith;
  kept = omega (arith, count-append t p.finished (task ∷ []));
  still = h;
  last = tt;
  shrinks = λ q. q;
}
work-Works t gone p h l = record {
  spent = omega arith;
  kept = refl;
  still = h;
  last = l;
  shrinks = λ q. q;
}

AllLast-shrinks :
    (ws : List Worker) (p p' : Pool) → (p.queue ≡ [] → p'.queue ≡ []) → AllLast ws p → AllLast ws p'
AllLast-shrinks [] p p' f _ = tt
AllLast-shrinks (waiting ∷ ws) p p' f (h, hs) = (tt, AllLast-shrinks ws p p' f hs)
AllLast-shrinks ((busy task) ∷ ws) p p' f (h, hs) = (tt, AllLast-shrinks ws p p' f hs)
AllLast-shrinks (gone ∷ ws) p p' f (h, hs) = (f h, AllLast-shrinks ws p p' f hs)

record Rounds (t : ℕ) (ws : List Worker) (p : Pool) (ws' : List Worker) (p' : Pool) : Type 0 where
  spent : turns_left ws' p' + alive ws ≤ turns_left ws p
  kept :
      count t p'.finished + all_busy_with t ws' + count t p'.queue
      ≡ count t p.finished + all_busy_with t ws + count t p.queue
  still : p'.stop ≡ true
  last : AllLast ws' p'
  shrinks : p.queue ≡ [] → p'.queue ≡ []
  same_length : length ws' ≡ length ws

IsLast-shrinks :
    (w : Worker) (p p' : Pool) → (p.queue ≡ [] → p'.queue ≡ []) → IsLast w p → IsLast w p'
IsLast-shrinks waiting p p' f h = tt
IsLast-shrinks (busy task) p p' f h = tt
IsLast-shrinks gone p p' f h = f h

round-Rounds :
    (t : ℕ) (ws : List Worker) (p : Pool)
    → p.stop ≡ true
    → AllLast ws p
    → Rounds t ws p (round ws p).0 (round ws p).1
unfolding round
round-Rounds t [] p h _ = record {
  spent = omega arith;
  kept = refl;
  still = h;
  last = tt;
  shrinks = λ q. q;
  same_length = refl;
}
round-Rounds t (w ∷ ws) p h (l, ls) =
    let first = work-Works t w p h l in
    let p' = (work w p).1 in
    let rest = round-Rounds t ws p' first.still (AllLast-shrinks ws p p' first.shrinks ls) in
    record {
      spent = omega (arith, first.spent, rest.spent);
      kept = omega (arith, first.kept, rest.kept);
      still = rest.still;
      last = (IsLast-shrinks (work w p).0 p' (round ws p').1 rest.shrinks first.last, rest.last);
      shrinks = λ q. rest.shrinks (first.shrinks q);
      same_length = ap suc rest.same_length;
    }

-- When everyone has left, nothing is left to do.
all_gone :
    (w : Worker) (ws : List Worker) (p : Pool)
    → AllLast (w ∷ ws) p
    → alive (w ∷ ws) ≡ 0
    → turns_left (w ∷ ws) p ≡ 0
all_gone waiting ws p l h = absurd (omega (arith, h))
all_gone (busy task) ws p l h = absurd (omega (arith, h))
all_gone gone [] p (l, _) h = omega (arith, ap length l)
all_gone gone (v ∷ vs) p (l, ls) h = omega (arith, all_gone v vs p ls (omega (arith, h)))

spent_round :
    (n t : ℕ) (ws : List Worker) (p : Pool)
    → p.stop ≡ true
    → AllLast ws p
    → 0 < length ws
    → turns_left ws p ≤ suc n
    → turns_left (round ws p).0 (round ws p).1 ≤ n
spent_round n t [] p h l some_one enough = absurd (omega (arith, some_one))
spent_round n t (w ∷ ws) p h l some_one enough = elim (Bool-cases (alive (w ∷ ws) == 0)) [
  | inl idle ↦
      omega (arith, (round-Rounds t (w ∷ ws) p h l).spent, all_gone w ws p l (ground (arith, idle)))
  | inr working ↦
      let more : 0 < alive (w ∷ ws) = ground (arith, working) in
      omega (arith, (round-Rounds t (w ∷ ws) p h l).spent, more, enough)
]

rounds-Rounds :
    (n t : ℕ) (ws : List Worker) (p : Pool)
    → p.stop ≡ true
    → AllLast ws p
    → 0 < length ws
    → turns_left ws p ≤ n
    → (turns_left (rounds n ws p).0 (rounds n ws p).1 ≡ 0)
      × (count t (rounds n ws p).1.finished
            + all_busy_with t (rounds n ws p).0
            + count t (rounds n ws p).1.queue
          ≡ count t p.finished + all_busy_with t ws + count t p.queue)
unfolding rounds
rounds-Rounds zero t ws p h l some_one enough = (omega (arith, enough), refl)
rounds-Rounds (suc n) t ws p h l some_one enough =
    let step = round-Rounds t ws p h l in
    let (done, kept) =
      rounds-Rounds n t (round ws p).0 (round ws p).1 step.still step.last
        (omega (arith, some_one, step.same_length)) (spent_round n t ws p h l some_one enough) in
    (done, kept ∙ step.kept)

unfinished : (ws : List Worker) (t : ℕ) → weights ws ≡ 0 → all_busy_with t ws ≡ 0
unfinished [] t h = refl
unfinished (waiting ∷ ws) t h = absurd (omega (arith, h))
unfinished ((busy task) ∷ ws) t h = absurd (omega (arith, h))
unfinished (gone ∷ ws) t h = omega (arith, unfinished ws t (omega (arith, h)))

no_tasks : (q : List ℕ) → length q ≡ 0 → q ≡ []
no_tasks [] h = refl
no_tasks (x ∷ xs) h = absurd (omega (arith, h))

present-AllLast : (ws : List Worker) (p : Pool) → All (λ w. is_gone w ≡ false) ws → AllLast ws p
present-AllLast [] p _ = tt
present-AllLast (waiting ∷ ws) p (h, hs) = (tt, present-AllLast ws p hs)
present-AllLast ((busy task) ∷ ws) p (h, hs) = (tt, present-AllLast ws p hs)
present-AllLast (gone ∷ ws) p (h, hs) = cc

-- A pool that is being destroyed runs every task: with at least one worker and none of them gone when
-- the flag is set, after as many rounds of turns as there are turns left, which is three for each task
-- in the queue, one for each waiting worker and two for each busy one, the queue is empty, all workers
-- have left, and each task has been finished as often as it had been finished, was being run, or was in
-- the queue.
pub rounds-stop_pool :
    (n t : ℕ) (ws : List Worker) (p : Pool)
    → 0 < length ws
    → All (λ w. is_gone w ≡ false) ws
    → turns_left ws p ≤ n
    → ((rounds n ws (stop_pool p)).1.queue ≡ [])
      × (weights (rounds n ws (stop_pool p)).0 ≡ 0)
      × (count t (rounds n ws (stop_pool p)).1.finished
          ≡ count t p.finished + all_busy_with t ws + count t p.queue)
unfolding stop_pool
rounds-stop_pool n t ws p some_one present enough =
    let (done, kept) =
      rounds-Rounds n t ws (stop_pool p) refl (present-AllLast ws (stop_pool p) present) some_one
        enough in
    let final = (rounds n ws (stop_pool p)) in
    let empty : final.1.queue ≡ [] = no_tasks final.1.queue (omega (arith, done)) in
    let left : weights final.0 ≡ 0 = omega (arith, done) in
    (empty, left, omega (arith, kept, unfinished final.0 t left, ap (count t) empty))
