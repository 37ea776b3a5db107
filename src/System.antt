-- ===== src/System.antt =====
-- The library as a whole: the sections that the calls of src/pthipth.h run under `global_futex`, one after
-- another, and the yields between them, of whatever threads.
pub mod Kept
pub mod Calls
pub mod Locks
pub mod Ends
pub mod Frees
pub mod Creates
pub mod Perform
pub mod Workers
pub mod Reaches
pub mod Blank
pub mod Starts
pub mod Example
mod Tests
use pthipth.Prelude.{ℕ, ◌≡◌, ◌≢◌, Bool, true, false, Option, none, some, ℤ, pos}
use pthipth.World.{World, Tcb, defunct, same_state}
use pthipth.Aging.{Run, done}
use pthipth.Yield.{dispatcher, yield, resume}
use pthipth.Sleep
use pthipth.Cond
use pthipth.Barrier
use pthipth.Barrier.{Barrier}
use pthipth.Mutex
use pthipth.Mutex.{Mutex}
use pthipth.Threads
use pthipth.Threads.Finish
use pthipth.Threads.{Globals, Attr, Task, cloned}

-- A section of a call, with what the system answers and with the object that it works on. `lock` is that
-- of a mutex that has been taken; `create` is one that succeeds.
pub data Call : Type 0 where
  sleep : (now : ℕ) (ms : ℤ) → Call
  cond_signal cond_broadcast cond_wait_non : (cond : ℕ) → Call
  cond_wait : (cond mutex : ℕ) → Call
  barrier_wait : (address : ℕ) (barrier : Barrier) → Call
  set_prio : (new_priority : ℤ) → Call
  mutex_lock : (gettid : ℕ) (mutex : Mutex) → Call
  mutex_unlock : (exists : Bool) (mutex : Mutex) → Call
  create : (default_stack node now tid : ℕ) (attr : Option Attr) (task : Task) → Call
  join_start : (g : Globals) (target_thread : ℕ) → Call
  join_end : (target : ℕ) (status : Option ℕ) → Call
  detach_start : (target_thread : ℕ) → Call
  detach_end : (target : ℕ) → Call
  exit : (return_val : ℕ) → Call

-- The state that a result comes with.
abbrev pub state_of {ℓ} : {A : Type ℓ} → Option (World × A) → Option World
state_of none = none
state_of (some (w, a)) = some w

abbrev pub state_of_mutex : Option (World × Mutex × ℤ) → Option World
state_of_mutex none = none
state_of_mutex (some (w, m, z)) = some w

-- What the section makes of the state of the library, for the thread `self` that runs it.
unfoldable pub perform : Call → (self : ℕ) → World → Option World
perform (sleep now ms) self w = state_of (Sleep.sleep self now ms w)
perform (cond_signal cond) self w = state_of (Cond.signal cond w)
perform (cond_broadcast cond) self w = state_of (Cond.broadcast cond w)
perform (cond_wait_non cond) self w = state_of (Cond.wait_non self cond w)
perform (cond_wait cond mutex) self w = state_of (Cond.wait self cond mutex w)
perform (barrier_wait address barrier) self w = elim (Barrier.wait self address barrier w) [
  | none ↦ none
  | some (b, w, next) ↦ some w
]
perform (set_prio new_priority) self w = state_of (Mutex.set_prio self new_priority w)
perform (mutex_lock gettid mutex) self w = state_of (Mutex.lock_taken self gettid w mutex)
perform (mutex_unlock exists mutex) self w =
    state_of_mutex (Mutex.unlock exists (w.tcb self).tid w mutex)
perform (create default_stack node now tid attr task) self w =
    elim (Threads.create default_stack (record { is_init = true; is_idle = true }) true true node
      now (cloned tid) attr task (pos 0) w) [ none ↦ none | some (w, id, z) ↦ some w ]
perform (join_start g target_thread) self w = state_of (Finish.join_start g self target_thread w)
perform (join_end target status) self w = elim (Finish.join_end target status w) [
  | none ↦ none
  | some (w, s, z) ↦ some w
]
perform (detach_start target_thread) self w = some (Finish.detach_start target_thread w).0
perform (detach_end target) self w = state_of (Finish.detach_end target w)
perform (exit return_val) self w = Finish.exit_start self return_val w
