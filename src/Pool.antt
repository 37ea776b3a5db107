-- ===== src/Pool.antt =====
-- src/pthipth_pool.c. The array of tasks is a function of the index; a position outside it is a fault.
-- What the workers and `pthipth_pool_add` do between two waits is one function each.
pub mod Ring
pub mod Life
mod Tests
use pthipth.Prelude.{
  ℕ, zero, suc, ◌+◌, ◌-◌, ◌%◌, Bool, true, false, not, Option, none, some, ◌==◌, ◌&&◌, ◌||◌, ltb,
  if◌then◌else◌, ◌>>=◌, ℤ, pos, negsuc, minus_one,
}
use pthipth.Ready.{put}
use pthipth.World.{
  Tcb, World, set_tcb, bq_reinsert, highest_priority, default_priority, lowest_priority,
  idle_priority,
}
use pthipth.Threads.{Task}

-- `pthipth_pool_t`; `has_threads` and `has_queue` are whether the two arrays are not NULL.
pub record Pool : Type 0 where
  pub has_threads : Bool
  pub has_queue : Bool
  pub queue : ℕ → Task
  pub thread_count : ℕ
  pub queue_size : ℕ
  pub head : ℕ
  pub tail : ℕ
  pub count : ℕ
  pub shutdown : Bool
  pub task_in_progess : ℕ
  pub started : ℕ

-- `pthipth_pool_free`
unfoldable pub free : (exists : Bool) → Pool → Pool × ℤ
free exists p =
    if not exists || ltb 0 p.started
    then (p, minus_one)
    else (record p { has_threads = false; has_queue = false }, pos 0)

-- The start of `pthipth_pool_create`, up to its loop: `true` is that the loop follows.
unfoldable pub create_start :
    (exists threads queue : Bool) (thread_count queue_size : ℤ) → Pool → Pool × Bool
create_start exists threads queue (negsuc n) queue_size p = (p, false)
create_start exists threads queue (pos n) (negsuc m) p = (p, false)
create_start exists threads queue (pos n) (pos m) p =
    if (n == 0) || (m == 0) || not exists
    then (p, false)
    else (let p' = record p {
      thread_count = 0;
      queue_size = m;
      head = 0;
      tail = 0;
      count = 0;
      task_in_progess = 0;
      shutdown = false;
      started = 0;
      has_threads = threads;
      has_queue = queue;
    } in
        if not threads || not queue then ((free true p').0, false) else (p', true))

-- The loop of `pthipth_pool_create` after one thread was made.
unfoldable pub started_one : Pool → Pool
started_one p = record p { thread_count = suc p.thread_count; started = suc p.started }

-- The section of `pthipth_pool_add` that stores the task.
unfoldable pub store : Task → Pool → Pool
store t p = record p {
  queue = put p.queue p.tail t;
  tail = (p.tail + 1) % p.queue_size;
  count = p.count + 1;
}

-- `pthipth_pool_add`, less the signal and the yield that follow: `true` is that they do.
unfoldable pub add : (exists given : Bool) → Task → Pool → Pool × Bool
add exists given t p =
    if not exists || not given || (t.function == 0) || not p.has_threads || not p.has_queue
    then (p, false)
    else if p.count == p.queue_size
    then (p, false)
    else (store t p, true)

-- Whether `pthipth_pool_add` yields after its signal.
unfoldable pub add_yields : Pool → Bool
add_yields p = p.count == p.thread_count

-- The priority at which a task is run.
unfoldable pub task_priority : ℤ → ℕ
task_priority (negsuc n) = highest_priority
task_priority (pos n) =
    let chosen = if n == 0 then default_priority else n in
    if ltb n highest_priority
    then highest_priority
    else if ltb lowest_priority chosen && not (chosen == idle_priority)
    then lowest_priority
    else chosen

unfoldable pub assume : (thread priority : ℕ) → World → Option World
assume n p w =
    bq_reinsert n
      (set_tcb n (record (w.tcb n) { priority = p; init_priority = p; old_priority = p }) w)

-- The test of the worker's inner loop: whether it waits on the condition variable.
unfoldable pub waits : Pool → Bool
waits p = (p.count == 0) && not p.shutdown

-- The worker's first section: it ends, or it has a task and goes on to yield and to run it.
unfoldable pub take : Pool → Pool
take p = record p { head = (p.head + 1) % p.queue_size; count = p.count - 1 }

unfoldable pub begin_task : (thread : ℕ) → Pool → World → Option (Pool × World × Option Task)
begin_task n p w =
    if p.shutdown
    then some (record p { started = p.started - 1 }, w, none)
    else (let t = p.queue p.head in
        do
          w ← assume n (task_priority t.priority) w
          some (record (take p) { task_in_progess = suc p.task_in_progess }, w, some t))

-- The worker's second section, after the task has run.
unfoldable pub end_task : (thread : ℕ) → Pool → World → Option (Pool × World)
end_task n p w = do
  w ← assume n highest_priority w
  some (record p { task_in_progess = p.task_in_progess - 1 }, w)

-- `pthipth_pool_destroy` up to its broadcast: whether it refuses, goes on waiting, or has shut down.
pub data Destroy : Type 0 where
  refused waiting shut : Destroy

unfoldable pub destroy_step : (exists : Bool) → Pool → Pool × Destroy
destroy_step exists p =
    if not exists || not p.has_threads || not p.has_queue || p.shutdown
    then (p, refused)
    else if ltb 0 p.count
    then (p, waiting)
    else (record p { shutdown = true }, shut)
