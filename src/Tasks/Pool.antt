-- ===== src/Tasks/Pool.antt =====
-- Class ThreadPool of src/utils/handler.hpp: the queue, and one turn of a worker under its lock or at
-- the end of a task.
pub mod Draining
use level_fs.Base.{
  ℕ, zero, suc, ◌+◌, ◌*◌, ◌==◌, if◌then◌else◌, List, [], ◌∷◌, ◌++◌, Option, none, some, Bool, true,
  false,
}

pub data Worker : Type 0 where
  waiting : Worker
  busy : ℕ → Worker
  gone : Worker

-- Tasks are numbers here. `started` and `finished` are the tasks in the order of these events.
pub record Pool : Type 0 where
  pub queue : List ℕ
  pub started : List ℕ
  pub finished : List ℕ
  pub stop : Bool

-- `none` is the exception of a stopped pool.
unfoldable pub enqueue : ℕ → Pool → Option Pool
enqueue task p = if p.stop then none else some (record p { queue = p.queue ++ task ∷ [] })

unfoldable pub work_waiting : List ℕ → Pool → Worker × Pool
work_waiting [] p = (if p.stop then gone else waiting, p)
work_waiting (task ∷ tasks) p =
    (busy task, record p { queue = tasks; started = p.started ++ task ∷ [] })

-- A worker's next turn: it takes the front of the queue, waits or leaves, or finishes its task.
unfoldable pub work : Worker → Pool → Worker × Pool
work waiting p = work_waiting p.queue p
work (busy task) p = (waiting, record p { finished = p.finished ++ task ∷ [] })
work gone p = (gone, p)

-- One turn of each worker.
unfoldable pub round : List Worker → Pool → List Worker × Pool
round [] p = ([], p)
round (w ∷ ws) p = let (w', p') = work w p in let (ws', p'') = round ws p' in (w' ∷ ws', p'')

unfoldable pub rounds : ℕ → List Worker → Pool → List Worker × Pool
rounds zero ws p = (ws, p)
rounds (suc n) ws p = let (ws', p') = round ws p in rounds n ws' p'

-- The destructor's flag, before it joins the workers.
unfoldable pub stop_pool : Pool → Pool
stop_pool p = record p { stop = true }
