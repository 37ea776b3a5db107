-- ===== src/Entry.antt =====
-- src/pthipth_wrapper.c: what a kernel thread runs. The user's function is code that
-- is not here: `result` is what it returns.
pub mod Enters
mod Tests
use pthipth.Prelude.{
  ℕ, zero, suc, ◌≡◌, refl, Bool, true, false, Option, none, some, ◌==◌, if◌then◌else◌, ◌>>=◌, ℤ,
  pos,
}
use pthipth.World.{World, running}
use pthipth.Clock.{Itimerval, set_thread_time_quota}
use pthipth.Yield.{resume}
use pthipth.Threads.Finish.{exit_start}

-- `__pthipth_wrapper` up to its call of `start_func`, once the futex of the thread is up: the state, the
-- timer, and the function and the argument that it calls, if the function is not NULL.
pub record Called : Type 0 where
  pub world : World
  pub timer : Itimerval
  pub call : Option (ℕ × ℕ)

unfoldable pub wrapper_start : (new_tcb : ℕ) (slept : Bool) → World → Option Called
wrapper_start new_tcb slept w = do
  w ← resume new_tcb slept w
  let w = record w { current = new_tcb } in
      some (record {
        world = w;
        timer = set_thread_time_quota (pos (w.tcb new_tcb).time_quota);
        call =
            if (w.tcb new_tcb).start_func == 0
            then none
            else some ((w.tcb new_tcb).start_func, (w.tcb new_tcb).arg);
      })

-- The rest of it, up to the dispatcher of `pthipth_exit`; `result` is what the function has returned.
unfoldable pub wrapper_end : (self : ℕ) (result : Option ℕ) → World → Option World
wrapper_end self none w = exit_start self 0 w
wrapper_end self (some value) w = exit_start self value w
