-- ===== src/System/Perform.antt =====
-- Every section of a call keeps the invariant of the library.
use pthipth.Prelude.{ℕ, ◌<◌, ◌≡◌, ap, true, Option, none, some, ℤ, pos, negsuc}
use pthipth.World.{World, same_state, defunct}
use pthipth.World.Moves.{Returns}
use pthipth.Yield.Upkeep.{Upkept}
use pthipth.Barrier.{Barrier}
use pthipth.Mutex.{Mutex}
use pthipth.World.{is_some, Next}
use pthipth.Threads.Create.{Created}
use pthipth.System.{
  Call, sleep, cond_signal, cond_broadcast, cond_wait_non, cond_wait, barrier_wait, set_prio,
  mutex_lock, mutex_unlock, create, join_start, join_end, detach_start, detach_end, exit, state_of,
  state_of_mutex, perform,
}
use pthipth.System.Calls.{
  Leaves, Calls, caller-real, sleep-Upkept, signal-Upkept, broadcast-Upkept, wait-Upkept,
  wait_non-Upkept,
}
use pthipth.System.Locks.{
  LeavesAt, LeavesMutex, barrier_wait-Upkept, set_prio-Upkept, lock_taken-Upkept, unlock-Upkept,
}
use pthipth.System.Ends.{JoinerLives, join_start-Upkept, detach_start-Upkept, exit_start-Upkept}
use pthipth.System.Frees.{Freeable, LeavesStatus, join_end-Upkept, detach_end-Upkept}
use pthipth.System.Creates.{New, create-Upkept}

-- What a call wants besides a caller that runs: a priority of the table, which is not the idle one;
-- a mutex that is initialised, and an owner that gets back such a priority; a control block and an id
-- that are new; a thread that has ended and nobody else frees; and a joiner that has not ended.
abbrev pub Wanted : (idle self : ℕ) → Call → World → Type 0
Wanted idle self (set_prio (pos priority)) w = priority < 31
Wanted idle self (set_prio (negsuc k)) w = ⊥
Wanted idle self (mutex_unlock exists mutex) w =
    (is_some mutex.futx ≡ true) × ((w.tcb self).old_priority < 31)
Wanted idle self (create default_stack node now tid attr task) w = New idle node tid w
Wanted idle self (join_end target status) w = Freeable target w
Wanted idle self (detach_end target) w = Freeable target w
Wanted idle self (exit return_val) w = JoinerLives idle self w
Wanted idle self _ w = Unit

abbrev pub Permitted : (idle self : ℕ) → Call → World → Type 0
Permitted idle self c w = Calls idle self w × Wanted idle self c w

module _ (P : World → Type 0) where
  left : {A : Type 0} (o : Option (World × A)) → Leaves P o → Returns P (state_of o)
  left none r = r
  left (some (w, a)) r = r

module _ (idle self : ℕ) where
  left_at :
      (o : Option (Barrier × World × Next))
      → LeavesAt idle self o
      → Returns (Upkept idle self) (elim o [ none ↦ none | some (b, w, next) ↦ some w ])
  left_at none r = r
  left_at (some (b, w, x)) r = r

  left_mutex :
      (o : Option (World × Mutex × ℤ))
      → LeavesMutex idle self o
      → Returns (Upkept idle self) (state_of_mutex o)
  left_mutex none r = r
  left_mutex (some (w, m, z)) r = r

  left-Created :
      (tid : ℕ) (o : Option (World × ℤ × ℤ))
      → Created (Upkept idle self) tid o
      → Returns (Upkept idle self) (elim o [ none ↦ none | some (w, id, z) ↦ some w ])
  left-Created tid none r = r
  left-Created tid (some (w, id, z)) r = r.0

  left_status :
      (o : Option (World × Option ℕ × ℤ))
      → LeavesStatus idle self o
      → Returns (Upkept idle self) (elim o [ none ↦ none | some (w, s, z) ↦ some w ])
  left_status none r = r
  left_status (some (w, s, z)) r = r

  -- A section that is permitted does not fault, and keeps the invariant of the library: the queues agree
  -- with the states, the tree has every thread that has not ended, and no thread but the caller runs.
  pub perform-Upkept :
      (c : Call) (w : World)
      → Permitted idle self c w
      → Upkept idle self w
      → Returns (Upkept idle self) (perform c self w)
  unfolding perform
  perform-Upkept (sleep now ms) w p u =
      left (Upkept idle self) _ (sleep-Upkept idle self now ms w p.0 u)
  perform-Upkept (cond_signal cond) w p u =
      left (Upkept idle self) _ (signal-Upkept idle self cond w u)
  perform-Upkept (cond_broadcast cond) w p u =
      left (Upkept idle self) _ (broadcast-Upkept idle self cond w u)
  perform-Upkept (cond_wait_non cond) w p u =
      left (Upkept idle self) _ (wait_non-Upkept idle self cond w p.0 u)
  perform-Upkept (cond_wait cond mutex) w p u =
      left (Upkept idle self) _ (wait-Upkept idle self cond mutex w p.0 u)
  perform-Upkept (barrier_wait address barrier) w p u =
      left_at _ (barrier_wait-Upkept idle self address barrier w p.0 u)
  perform-Upkept (set_prio (negsuc k)) w p u = absurd p.1
  perform-Upkept (set_prio (pos priority)) w p u =
      left (Upkept idle self) _ (set_prio-Upkept idle self priority w p.1 p.0 u)
  perform-Upkept (mutex_lock gettid mutex) w p u =
      left (Upkept idle self) _ (lock_taken-Upkept idle self gettid mutex w p.0 u)
  perform-Upkept (mutex_unlock exists mutex) w p u = left_mutex _ (
      unlock-Upkept idle self exists mutex w p.1.0 p.1.1 (caller-real idle self w u p.0) p.0.1
        (ap (λ s. same_state s defunct) p.0.0) u)
  perform-Upkept (create default_stack node now tid attr task) w p u =
      left-Created tid _
        (create-Upkept idle self node default_stack now tid attr task (pos 0) w u p.1)
  perform-Upkept (join_start g target_thread) w p u =
      left (Upkept idle self) _ (join_start-Upkept idle self g target_thread w p.0 u)
  perform-Upkept (join_end target status) w p u =
      left_status _ (join_end-Upkept idle self target status w u p.1)
  perform-Upkept (detach_start target_thread) w p u =
      detach_start-Upkept idle self target_thread w u
  perform-Upkept (detach_end target) w p u =
      left (Upkept idle self) _ (detach_end-Upkept idle self target w u p.1)
  perform-Upkept (exit return_val) w p u = exit_start-Upkept idle self return_val w p.0 p.1 u
