-- ===== src/Sleep/Wakes.antt =====
-- What `check_sleeping` and `sleep` of src/pthipth_sleep.c do.
use pthipth.Prelude.{ℕ, ◌≢◌, Bool, ◌&&◌, leb, arith, Bool-cases, inl, inr}
use pthipth.World.{World, Tcb, sleeping, same_state}
use pthipth.World.Moves.{Returns}
use pthipth.World.Valid.{Valid}
use pthipth.World.Wake.{Awake, Wakes, same, each-Awake, wake-Wakes, idle-Wakes, sleeper-real}
use pthipth.Sleep.{wake_sleeper, check_sleeping}

abbrev pub is_due : ℕ → Tcb → Bool
is_due now t = same_state t.state sleeping && leb t.wake_time now

module _ (idle now : ℕ) where
  wake_sleeper-Wakes :
      (w : World) (n : ℕ)
      → n ≢ 0
      → Valid idle w
      → Returns (Wakes idle same (is_due now) (wake_sleeper now) w n) (wake_sleeper now n w)
  unfolding wake_sleeper
  wake_sleeper-Wakes w n h v = elim (Bool-cases (is_due now (w.tcb n))) [
    | inl e ↦ rw e (wake-Wakes idle (is_due now) w n h v e)
    | inr e ↦ rw e (idle-Wakes idle same (is_due now) w n v e)
  ]

  -- `check_sleeping` returns and keeps the invariant of the scheduler; the threads that sleep and whose
  -- time has come are ready, and every other thread is as it was.
  pub check_sleeping-Awake :
      (w : World) → Valid idle w → Returns (Awake idle same (is_due now) w) (check_sleeping now w)
  unfolding check_sleeping
  check_sleeping-Awake w v =
      let c = v.consistent in
      each-Awake idle same (is_due now) (wake_sleeper now) wake_sleeper-Wakes w w.sleeping_state v
        c.sleeping_Distinct (sleeper-real idle w v) (λ m e. ground (arith, c.sleeping_lem m))
