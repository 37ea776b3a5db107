-- ===== src/World.antt =====
-- The data of the library (src/pthipth.h, src/pthipth_internal_type.h): the thread control blocks by
-- address, the queues that they stand in, and the tree of all of them. The bucket queue and the state
-- queues are lists, the abstract view of the pointers of src/pthipth_bq.c and src/pthipth_queue.c
-- (Bq.Represents, Queue.Represents).
pub mod Moves
pub mod State
pub mod Invariant
pub mod Valid
pub mod Result
pub mod Each
pub mod Wake
pub mod Frame
pub mod Example
use pthipth.Prelude.{
  ℕ, suc, Bool, true, false, Option, none, some, List, [], ◌∷◌, ◌++◌, ◌==◌, ◌&&◌, ◌||◌, ltb,
  if◌then◌else◌, ◌>>=◌, erase, ℤ,
}
use pthipth.Avl.{Tree, search_tid}
use pthipth.Ready
use pthipth.Ready.{Ready, buckets_count, put, lowest}

abbrev pub highest_priority : ℕ
highest_priority = 1

abbrev pub default_priority : ℕ
default_priority = 20

abbrev pub lowest_priority : ℕ
lowest_priority = 29

abbrev pub main_priority : ℕ
main_priority = 30

abbrev pub idle_priority : ℕ
idle_priority = 31

-- `pthipth_state_t`
pub data ThreadState : Type 0 where
  ready running blocked sleeping defunct : ThreadState

-- `futex_t.count` of a thread: 1 is a wake-up that is not yet taken, 0 none, and below 0 a sleeper.
pub data Count : Type 0 where
  up down waiting : Count

-- `pthipth_private_t`, less the links, which the queues and the tree stand for. Addresses, functions
-- and arguments are numbers, and 0 is NULL; `cur_priority` is `none` for -1.
pub record Tcb : Type 0 where
  pub tid : ℕ
  pub tid_watch : ℕ
  pub state : ThreadState
  pub start_func : ℕ
  pub arg : ℕ
  pub return_value : ℕ
  pub blocked_for_join : ℕ
  pub sched_futex : Count
  pub priority : ℕ
  pub init_priority : ℕ
  pub old_priority : ℕ
  pub wake_time : ℕ
  pub last_selected : ℕ
  pub time_quota : ℕ
  pub aging_factor : ℕ
  pub aging_time : ℕ
  pub mutex_count : ℤ
  pub current_cond : ℕ
  pub current_barrier : ℕ
  pub stack_size : ℤ
  pub is_detach : Bool
  pub cur_priority : Option ℕ

pub record World : Type 0 where
  pub tcb : ℕ → Tcb
  pub ready_queue : Ready
  pub blocked_state : List ℕ
  pub sleeping_state : List ℕ
  pub defunct_state : List ℕ
  pub avl_root : Tree
  pub current : ℕ  -- `cur_pthipth` of the thread that runs

abbrev pub set_tcb : ℕ → Tcb → World → World
set_tcb n t w = record w { tcb = put w.tcb n t }

-- `pthipth_bq_insert`; a priority outside the table is a fault.
unfoldable pub bq_insert : ℕ → World → Option World
unfolding Ready.insert
bq_insert n w =
    let p = (w.tcb n).priority in
    if ltb p buckets_count
    then some (record (set_tcb n (record (w.tcb n) { cur_priority = some p }) w) {
      ready_queue = Ready.insert p n w.ready_queue;
    })
    else none

unfoldable pub bq_remove : ℕ → ℕ → World → World
unfolding Ready.delete
bq_remove n p w = record (set_tcb n (record (w.tcb n) { cur_priority = none }) w) {
  ready_queue = Ready.delete p n w.ready_queue;
}

abbrev pub is_some {ℓ} : {A : Type ℓ} → Option A → Bool
is_some none = false
is_some (some a) = true

unfoldable pub bq_delete_at : ℕ → Option ℕ → World → Option World
unfolding bq_remove
bq_delete_at n none w = some w
bq_delete_at n (some p) w =
    let w' = bq_remove n p w in if is_some (lowest w'.ready_queue.bits) then some w' else none

-- `pthipth_bq_delete`; without a bit left `__builtin_ctz` has no result.
unfoldable pub bq_delete : ℕ → World → Option World
unfolding bq_delete_at Ready.peek
bq_delete n w =
    if Ready.peek w.ready_queue == 0 then some w else bq_delete_at n (w.tcb n).cur_priority w

unfoldable pub bq_reinsert : ℕ → World → Option World
unfolding bq_insert bq_delete
bq_reinsert n w = do w ← bq_delete n w; bq_insert n w

-- `__pthipth_change_to_state`: out of the queue of the old state, into that of the new one.
unfoldable pub leave : ℕ → ThreadState → World → World
leave n blocked w = record w { blocked_state = erase n w.blocked_state }
leave n sleeping w = record w { sleeping_state = erase n w.sleeping_state }
leave n _ w = w

abbrev pub same_state : ThreadState → ThreadState → Bool
same_state ready ready = true
same_state running running = true
same_state blocked blocked = true
same_state sleeping sleeping = true
same_state defunct defunct = true
same_state _ _ = false

unfoldable pub enter : ℕ → ThreadState → World → Option World
unfolding bq_insert bq_delete
enter n blocked w = do
  w ← bq_delete n w
  some (record w { blocked_state = w.blocked_state ++ (n ∷ []) })
enter n sleeping w = do
  w ← bq_delete n w
  some (record w { sleeping_state = w.sleeping_state ++ (n ∷ []) })
enter n ready w = if same_state (w.tcb n).state running then some w else bq_insert n w
enter n defunct w = bq_delete n w
enter n running w = some w

unfoldable pub set_state : ℕ → ThreadState → World → World
set_state n s w = set_tcb n (record (w.tcb n) { state = s }) w

unfoldable pub change_to_state : ℕ → ThreadState → World → Option World
unfolding leave enter set_state
change_to_state n s w =
    if same_state (w.tcb n).state s
    then some w
    else (do w ← enter n s (leave n (w.tcb n).state w); some (set_state n s w))

-- How a function goes on that gives up the processor at its end: it has returned a value, or it goes
-- on into `pthipth_yield`.
pub data Next : Type 0 where
  returned : (value : ℤ) → Next
  to_yield : Next

-- `__pthipth_selfptr`; `gettid` is what the system says.
unfoldable pub selfptr : ℕ → World → ℕ
unfolding search_tid
selfptr gettid w = if w.current == 0 then search_tid gettid w.avl_root else w.current
