-- ===== src/Sleep.antt =====
-- src/pthipth_sleep.c. The time is a parameter; `wake_time` is an unsigned number of 64 bits.
pub mod Wakes
pub mod Frame
use pthipth.Prelude.{
  ℕ, ◌+◌, ◌%◌, ◌^◌, Bool, Option, none, some, List, ◌&&◌, leb, if◌then◌else◌, ◌>>=◌, ℤ, pos, negsuc,
}
use pthipth.World.{
  World, ready, sleeping, same_state, set_tcb, change_to_state, Next, returned, to_yield,
}
use pthipth.World.Each.{each}

-- `pthipth_sleep`, up to its `pthipth_yield`; a void function, which returns 0 here.
unfoldable pub sleep : (self now : ℕ) → ℤ → World → Option (World × Next)
unfolding change_to_state
sleep self now (negsuc ms) w = some (w, returned (pos 0))
sleep self now (pos ms) w = do
  w ←
      change_to_state self sleeping
        (set_tcb self (record (w.tcb self) { wake_time = (now + ms) % 2 ^ 64 }) w)
  some (w, to_yield)

abbrev due : ℕ → World → ℕ → Bool
due now w n = same_state (w.tcb n).state sleeping && leb (w.tcb n).wake_time now

unfoldable pub wake_sleeper : ℕ → ℕ → World → Option World
unfolding change_to_state
wake_sleeper now n w = if due now w n then change_to_state n ready w else some w

-- `__pthipth_check_sleeping`
unfoldable pub check_sleeping : ℕ → World → Option World
unfolding each wake_sleeper
check_sleeping now w = each (wake_sleeper now) w.sleeping_state w
