-- ===== src/World/Example.antt =====
-- A state of the scheduler for the tests: the idle thread 1 is ready, thread 2 runs, thread 3 is blocked on
-- the condition variable 9 and at the barrier 8, and thread 4 sleeps until 100.
use pthipth.Prelude.{
  ℕ, refl, true, false, Option, none, some, [], ◌∷◌, ◌==◌, if◌then◌else◌, arith, pos,
}
use pthipth.Avl
use pthipth.Ready.{Ready, put}
use pthipth.World.{ThreadState, ready, running, blocked, sleeping, defunct, down, Tcb, World}
use pthipth.World.Invariant.{Consistent}
use pthipth.World.Valid.{Valid}

abbrev pub thread : (tid : ℕ) (state : ThreadState) (priority : ℕ) (cur_priority : Option ℕ) → Tcb
thread tid state priority cur_priority = record {
  tid = tid;
  tid_watch = tid;
  state = state;
  start_func = 0;
  arg = 0;
  return_value = 0;
  blocked_for_join = 0;
  sched_futex = down;
  priority = priority;
  init_priority = priority;
  old_priority = priority;
  wake_time = 0;
  last_selected = 0;
  time_quota = 0;
  aging_factor = 0;
  aging_time = 1;
  mutex_count = pos 0;
  current_cond = 0;
  current_barrier = 0;
  stack_size = pos 0;
  is_detach = false;
  cur_priority = cur_priority;
}

abbrev pub threads : ℕ → Tcb
threads n =
    if n == 1
    then thread 101 ready 31 (some 31)
    else if n == 2
    then thread 102 running 5 (some 5)
    else if n == 3
    then record (thread 103 blocked 7 none) { current_cond = 9; current_barrier = 8 }
    else if n == 4
    then record (thread 104 sleeping 7 none) { wake_time = 100 }
    else thread 0 defunct 7 none

abbrev pub queue : Ready
queue = record {
  bucket = put (put (λ p. []) 31 (1 ∷ [])) 5 (2 ∷ []);
  bits = put (put (λ p. false) 31 true) 5 true;
}

abbrev pub world : World
world = record {
  tcb = threads;
  ready_queue = queue;
  blocked_state = 3 ∷ [];
  sleeping_state = 4 ∷ [];
  defunct_state = [];
  avl_root = Avl.node Avl.leaf 102 2 1 Avl.leaf;
  current = 2;
}

pub world-Consistent : Consistent world
world-Consistent = record {
  blocked_lem = λ n. ground arith;
  sleeping_lem = λ n. ground arith;
  bucket_lem = λ n p. ground arith;
  queued_lem = λ n. ground arith;
  blocked_Distinct = (refl, tt);
  sleeping_Distinct = (refl, tt);
  bucket_Distinct = λ p. ground arith;
  shown = λ p h e. ground arith;
  null_lem = refl;
  idle_shown = refl;
}

pub world-Valid : Valid 1 world
world-Valid = record {
  consistent = world-Consistent;
  priority_lem = λ n. ground arith;
  below_idle = λ n h e. ground arith;
  outside_idle = λ n h e. ground arith;
}
