-- ===== src/Pool/Tests.antt =====
-- Runs of the theorems on a ring of two places of src/pthipth_pool.c, whose first task stands in the last.
use pthipth.Prelude.{
  ℕ, ℤ, ◌==◌, if◌then◌else◌, minus_one, ◌≡◌, ◌≢◌, refl, arith, true, false, [], ◌∷◌, ◌++◌, pos,
}
use pthipth.Threads.{Task}
use pthipth.Pool.{Pool, add}
use pthipth.Pool.Ring.{IsRing, contents, add-contents}

abbrev some_task : Task
some_task = record { function = 77; arg = 5; priority = pos 3 }

abbrev one_task : Pool
one_task = record {
  has_threads = true;
  has_queue = true;
  queue = λ i. some_task;
  thread_count = 1;
  queue_size = 2;
  head = 1;
  tail = 0;
  count = 1;
  shutdown = false;
  task_in_progess = 0;
  started = 1;
}

one_task-IsRing : IsRing one_task
one_task-IsRing = record { head_lem = omega arith; count_lem = omega arith; tail_lem = refl }

abbrev Given : Type 0
Given = some_task.function ≢ 0

task_given : Given
task_given = ground arith

add-contents_example :
    IsRing (add true true some_task one_task).0
    × (contents (add true true some_task one_task).0 ≡ contents one_task ++ (some_task ∷ []))
    × ((add true true some_task one_task).1 ≡ true)
add-contents_example =
    add-contents one_task one_task-IsRing some_task refl refl task_given (omega arith)

-- The second `pthipth_create` fails.
abbrev answer : ℕ → ℤ
answer i = if i == 1 then minus_one else pos 0
