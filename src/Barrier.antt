-- ===== src/Barrier.antt =====
-- src/pthipth_barrier.c. The barrier is its address, which the threads that wait at it hold, and its
-- two fields. `waiting` counts threads, of which there are far fewer than an `int` can count.
pub mod Opens
use pthipth.Prelude.{
  ℕ, Bool, true, false, Option, none, some, ◌==◌, ◌&&◌, ◌||◌, if◌then◌else◌, ◌>>=◌, ℤ, pos, ltz,
  incr, minus_one,
}
use pthipth.World.{
  Tcb, World, ready, blocked, same_state, set_tcb, change_to_state, Next, returned, to_yield,
}
use pthipth.World.Each.{each}

pub record Barrier : Type 0 where
  pub count : ℤ
  pub waiting : ℤ

-- `PTHIPTH_BARRIER_SERIAL_THREAD`
abbrev pub serial_thread : ℤ
serial_thread = pos 1

-- `pthipth_barrier_init`
unfoldable pub init : (address : ℕ) → ℤ → Barrier → Barrier × ℤ
init address count b =
    if address == 0
    then (b, minus_one)
    else (record { count = if ltz count (pos 0) then pos 1 else count; waiting = pos 0 }, pos 0)

-- The test of the loop that wakes: the thread is blocked, at the barrier or elsewhere, and the barrier is the
-- last one that it has waited at.
abbrev pub stands : ℕ → Tcb → Bool
stands address t = same_state t.state blocked && (t.current_barrier == address)

unfoldable pub wake_stander : ℕ → ℕ → World → Option World
unfolding change_to_state
wake_stander address n w = if stands address (w.tcb n) then change_to_state n ready w else some w

-- The thread stands at the barrier, which is not yet full.
unfoldable pub stand : (self address : ℕ) → World → Option World
unfolding change_to_state
stand self address w =
    change_to_state self blocked
      (set_tcb self (record (w.tcb self) { current_barrier = address }) w)

-- The last thread wakes those that stand at the barrier.
unfoldable pub open_barrier : ℕ → World → Option World
unfolding each wake_stander
open_barrier address w = each (wake_stander address) w.blocked_state w

-- `pthipth_barrier_wait`, up to its `pthipth_yield` where it has one
unfoldable pub wait : (self address : ℕ) → Barrier → World → Option (Barrier × World × Next)
unfolding stand open_barrier
wait self address b w =
    if (address == 0) || (self == 0)
    then some (b, w, returned minus_one)
    else (let b = record b { waiting = incr b.waiting } in
        if ltz b.waiting b.count then (do w ← stand self address w; some (b, w, to_yield)) else (do
          w ← open_barrier address w
          some (record b { waiting = pos 0 }, w, returned serial_thread)))

-- `pthipth_barrier_destroy`
unfoldable pub destroy : (address : ℕ) → Barrier → Barrier × ℤ
destroy address b =
    if address == 0
    then (b, minus_one)
    else if ltz (pos 0) b.waiting
    then (b, minus_one)
    else (record { count = minus_one; waiting = minus_one }, pos 0)
