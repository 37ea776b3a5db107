-- ===== src/System/Tests.antt =====
-- Runs of the theorems on the whole library.
use pthipth.Prelude.{ℕ, ◌≤◌, ◌≡◌, refl, true, false, Bool, Option, none, some, [], ◌∷◌, arith, pos}
use pthipth.Avl
use pthipth.Ready
use pthipth.Sleep
use pthipth.Aging
use pthipth.Yield
use pthipth.World.{World}
use pthipth.World.Moves.{Returns}
use pthipth.Aging.{Run, done, aging, passes}
use pthipth.Aging.Keeps.{Aged, aging-Aged}
use pthipth.Yield.{check_detach, dispatcher, yield}
use pthipth.Yield.Sweep.{SweptWorld, check_detach-Swept}
use pthipth.Yield.Upkeep.{Upkept, Dispatched, Settled, dispatcher-Dispatched}
use pthipth.Yield.Ends.{NoAging}
use pthipth.Pool.{Pool, waits as pool_waits, begin_task}
use pthipth.System.Workers.{Works, begin_task-Works}
use pthipth.Threads.{cloned, init}
use pthipth.System.{sleep, set_prio, perform}
use pthipth.System.Perform.{perform-Upkept}
use pthipth.System.Reaches.{Reach, here, step, calls, waits, Reach-Upkept, Reach-Settled}
use pthipth.System.Starts.{Started, init-Started}
use pthipth.System.Blank.{blank}
use pthipth.System.Example.{whole, whole-Valid, whole-Files, whole-KeptUp, whole-Only}

check_detach-Swept_example : Returns (SweptWorld 2 (5 ∷ []) whole) (check_detach 2 whole)
check_detach-Swept_example = check_detach-Swept 2 whole whole-Files

dispatcher-Dispatched_example : Dispatched 1 2 (dispatcher 9 200 200 200 2 whole)
dispatcher-Dispatched_example =
    dispatcher-Dispatched 1 2 9 200 200 200 whole whole-KeptUp whole-Only

perform-Upkept_example : Returns (Upkept 1 2) (perform (set_prio (pos 9)) 2 whole)
perform-Upkept_example =
    perform-Upkept 1 2 (set_prio (pos 9)) whole ((refl, (λ e. ground arith)), omega arith)
      (whole-KeptUp, whole-Only)

init-Started_example :
    Started 7 6 (
      init 8192 3 (record { is_init = false; is_idle = false }) true 6 7 100 5 6 (cloned 101) blank)
init-Started_example =
    init-Started 8192 3 6 7 100 5 6 101 (omega arith) (omega arith) (omega arith) (omega arith)

-- Thread 2 sleeps until 300, and then yields to the idle thread.
abbrev state_or : World → Option World → World
state_or w none = w
state_or w (some w') = w'

abbrev asleep : World
asleep = state_or whole (perform (sleep 200 (pos 100)) 2 whole)

asleep_lem : perform (sleep 200 (pos 100)) 2 whole ≡ some asleep
unfolding perform Sleep.sleep Ready.lowest
asleep_lem = refl

abbrev state_of_run : World → Run (World × Bool) → World
state_of_run w (done (w', b)) = w'
state_of_run w _ = w

abbrev idling : World
idling = state_of_run asleep (yield 9 200 200 200 2 asleep)

idling_lem : yield 9 200 200 200 2 asleep ≡ done (idling, true)
unfolding perform Sleep.sleep Sleep.check_sleeping Ready.lowest Ready.peek Ready.rotate aging
    check_detach yield dispatcher Yield.choose Yield.scheduler Yield.select_next Yield.hand_over
    Yield.stamp Yield.to_ready Yield.wake_up Yield.free_detached Yield.free_thread Yield.take_left
    Avl.delete Aging.next_in
idling_lem = refl

-- What thread 2 and the idle thread have done.
slept : Reach 1 2 whole idling.current idling
slept =
    step 2 idling.current asleep idling
      (step 2 2 whole asleep here
        (calls 2 whole asleep (sleep 200 (pos 100)) ((refl, (λ e. ground arith)), tt) asleep_lem))
      (waits 2 asleep idling 9 200 200 200 idling_lem)

Reach-Upkept_example : Upkept 1 idling.current idling
Reach-Upkept_example = Reach-Upkept 1 2 whole idling.current idling (whole-KeptUp, whole-Only) slept

asleep-NoAging : NoAging asleep
unfolding perform Sleep.sleep Ready.lowest
asleep-NoAging n = ground arith

Reach-Settled_example :
    (bound : ℕ) × ((fuel : ℕ) → bound ≤ fuel → Settled 1 2 (dispatcher fuel 200 200 200 2 asleep))
Reach-Settled_example =
    Reach-Settled 1 2 whole 2 asleep (whole-KeptUp, whole-Only)
      (step 2 2 whole asleep here
        (calls 2 whole asleep (sleep 200 (pos 100)) ((refl, (λ e. ground arith)), tt) asleep_lem))
      asleep-NoAging 200 200 200

aging-Aged_example : Aged 1 50 whole (aging 9 50 whole)
aging-Aged_example = aging-Aged 1 50 9 whole whole-Valid refl

-- Thread 2 is a worker, at a ring of two places with one task.
abbrev one_task : Pool
one_task = record {
  has_threads = true;
  has_queue = true;
  queue = λ i. record { function = 77; arg = 5; priority = pos 3 };
  thread_count = 1;
  queue_size = 2;
  head = 1;
  tail = 0;
  count = 1;
  shutdown = false;
  task_in_progess = 0;
  started = 1;
}

one_task-goes : pool_waits one_task ≡ false
unfolding pool_waits
one_task-goes = refl

begin_task-Works_example : Works 1 2 one_task whole (begin_task 2 one_task whole)
begin_task-Works_example =
    begin_task-Works 1 2 one_task whole
      (record { head_lem = omega arith; count_lem = omega arith; tail_lem = refl })
      (refl, (λ e. ground arith)) (whole-KeptUp, whole-Only) one_task-goes λ s e. cc
