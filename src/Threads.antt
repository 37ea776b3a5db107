-- ===== src/Threads.antt =====
-- The beginning of a thread: src/pthipth_create.c and src/pthipth_init.c. What the system answers is a
-- parameter: the address that `calloc` gives (0 is NULL), whether `mmap` succeeds, what `clone` answers,
-- the time, the caller's id, and `SIGSTKSZ`.
pub mod Finish
pub mod Priority
pub mod Create
pub mod Exit
use pthipth.Prelude.{
  ltb, ◌%◌, ◌^◌, ◌-◌, ℕ, zero, suc, Bool, true, false, not, Option, none, some, List, [], ◌∷◌, ◌++◌,
  ◌==◌, ◌&&◌, ◌||◌, ltb, if◌then◌else◌, ◌>>=◌, ℤ, pos, negsuc, is_zero, minus_one,
}
use pthipth.Avl
use pthipth.Avl.{search_tid}
use pthipth.World.{
  ThreadState, ready, running, blocked, defunct, same_state, Count, up, down, Tcb, World, set_tcb,
  bq_insert, change_to_state, is_some, highest_priority, default_priority, lowest_priority,
  main_priority, idle_priority,
}
use pthipth.Yield.{free_thread}

-- `__g_pthipth_init` and `__g_pthipth_idle`
pub record Globals : Type 0 where
  pub is_init : Bool
  pub is_idle : Bool

-- `pthipth_attr_t`
pub record Attr : Type 0 where
  pub stack_size : ℕ
  pub time_quota_ms : ℤ
  pub aging_factor : ℤ
  pub aging_time : ℤ

-- `pthipth_task_t`
pub record Task : Type 0 where
  pub function : ℕ
  pub arg : ℕ
  pub priority : ℤ

-- `(attr == NULL || attr->field <= 0) ? d : attr->field`
abbrev positive_or : ℕ → ℤ → ℕ
positive_or d (pos n) = if n == 0 then d else n
positive_or d (negsuc n) = d

abbrev attr_or : ℕ → (Attr → ℤ) → Option Attr → ℕ
attr_or d field none = d
attr_or d field (some a) = positive_or d (field a)

-- The priority of a new thread; `__g_pthipth_idle` is not set yet for the idle thread itself.
unfoldable pub priority_of : (is_idle : Bool) → ℤ → ℕ
priority_of is_idle (negsuc n) = highest_priority
priority_of is_idle (pos n) =
    let chosen = if n == 0 then default_priority else n in
    if ltb n highest_priority
    then highest_priority
    else if is_idle && ltb lowest_priority n
    then lowest_priority
    else chosen

-- The conversion of a `uint64_t` to an `int` of 32 bits
unfoldable pub to_int : ℕ → ℤ
to_int n = let low = n % 2 ^ 32 in if ltb low (2 ^ 31) then pos low else negsuc (2 ^ 32 - 1 - low)

-- The thread control block that `calloc` and the assignments of `pthipth_create` make.
unfoldable pub new_tcb :
    (default_stack : ℕ) (is_idle : Bool) (tid now : ℕ) → Option Attr → Task → Tcb
new_tcb default_stack is_idle tid now attr task =
    let p = priority_of is_idle task.priority in
    record {
      tid = tid;
      tid_watch = tid;
      state = ready;
      start_func = task.function;
      arg = task.arg;
      return_value = 0;
      blocked_for_join = 0;
      sched_futex = down;
      priority = p;
      init_priority = p;
      old_priority = p;
      wake_time = 0;
      last_selected = now;
      time_quota = attr_or 0 (λ a. a.time_quota_ms) attr;
      aging_factor = attr_or 0 (λ a. a.aging_factor) attr;
      aging_time = attr_or 1 (λ a. a.aging_time) attr;
      mutex_count = pos 0;
      current_cond = 0;
      current_barrier = 0;
      stack_size = to_int (attr_or default_stack (λ a. pos a.stack_size) attr);
      is_detach = false;
      cur_priority = some 0;
    }

pub data Clone : Type 0 where
  cloned : (tid : ℕ) → Clone
  failed : (errno : ℕ) → Clone

-- `pthipth_bq_insert` and `pthipth_avl_insert` of a new thread
unfoldable pub register : ℕ → World → Option World
register n w = do
  w ← bq_insert n w
  elim (Avl.insert (w.tcb n).tid n w.avl_root) [
    | none ↦ none
    | some t ↦ some (record w { avl_root = t })
  ]

abbrev negated : ℕ → ℤ
negated zero = pos 0
negated (suc n) = negsuc n

unfoldable pub create_cloned :
    (default_stack : ℕ) (is_idle : Bool) (node now : ℕ)
    → Clone
    → Option Attr
    → Task
    → World
    → Option (World × ℤ × ℤ)
create_cloned default_stack is_idle node now (failed errno) attr task w =
    some (w, minus_one, negated errno)
create_cloned default_stack is_idle node now (cloned tid) attr task w = do
  w ← register node (set_tcb node (new_tcb default_stack is_idle tid now attr task) w)
  some (w, pos tid, pos 0)

-- `pthipth_create`: the state, `*new_thread_ID` and the result; `id` is what was there before, and
-- `pointers` whether neither `new_thread_ID` nor `task` is NULL.
unfoldable pub create :
    (default_stack : ℕ)
    → Globals
    → (pointers mapped : Bool) (node now : ℕ) → Clone
    → Option Attr
    → Task
    → (id : ℤ) → World
    → Option (World × ℤ × ℤ)
create default_stack g pointers mapped node now clone attr task id w =
    if not g.is_init || not pointers || (node == 0) || not mapped
    then some (w, id, minus_one)
    else create_cloned default_stack g.is_idle node now clone attr task w

-- The thread control block of the main thread.
unfoldable pub main_tcb : (tid now : ℕ) → Tcb
main_tcb tid now = record {
  tid = tid;
  tid_watch = tid;
  state = running;
  start_func = 0;
  arg = 0;
  return_value = 0;
  blocked_for_join = 0;
  sched_futex = up;
  priority = main_priority;
  init_priority = main_priority;
  old_priority = main_priority;
  wake_time = 0;
  last_selected = now;
  time_quota = 0;
  aging_factor = 0;
  aging_time = 1;
  mutex_count = pos 0;
  current_cond = 0;
  current_barrier = 0;
  stack_size = pos 0;
  is_detach = false;
  cur_priority = some 0;
}

-- `__pthipth_add_main_tcb`; `none` inside is the -1 of a failed `calloc`.
unfoldable pub add_main_tcb : (node gettid now : ℕ) → World → Option World
add_main_tcb node gettid now w =
    register node (set_tcb node (main_tcb gettid now) (record w { current = node }))

abbrev pub idle_task : ℕ → Task
idle_task function = record { function = function; arg = 0; priority = pos idle_priority }

-- The part of `pthipth_init` that makes the idle thread.
unfoldable pub init_idle :
    (default_stack idle_function : ℕ)
    → Globals
    → (mapped : Bool) (node now : ℕ) → Clone
    → World
    → Option (World × Globals × ℤ)
init_idle default_stack idle_function g mapped node now clone w =
    if g.is_idle then some (w, g, pos 0) else (do
      (w, id, r) ←
          create default_stack g true mapped node now clone none (idle_task idle_function) (pos 0) w
      some (w, (if is_zero r then record g { is_idle = true } else g), r))

-- `pthipth_init`; `main_node` and `idle_node` are what the two calls of `calloc` give, `now` and `idle_now` what
-- the clock says at each.
unfoldable pub init :
    (default_stack idle_function : ℕ)
    → Globals
    → (mapped : Bool) (main_node idle_node gettid now idle_now : ℕ) → Clone
    → World
    → Option (World × Globals × ℤ)
init default_stack idle_function g mapped main_node idle_node gettid now idle_now clone w =
    if g.is_init
    then init_idle default_stack idle_function g mapped idle_node idle_now clone w
    else if main_node == 0
    then some (w, g, minus_one)
    else (do
      w ← add_main_tcb main_node gettid now w
      init_idle default_stack idle_function (record g { is_init = true }) mapped idle_node idle_now
          clone w)
