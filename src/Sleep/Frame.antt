-- ===== src/Sleep/Frame.antt =====
-- What `__pthipth_check_sleeping` of src/pthipth_sleep.c leaves alone.
use pthipth.Prelude.{ℕ, Bool-cases, inl, inr}
use pthipth.World.{World, ready}
use pthipth.World.Frame.{Rest, Where, Rest-self, change_to_state-Rest, each-Rest}
use pthipth.Sleep.{wake_sleeper, check_sleeping}
use pthipth.Sleep.Wakes.{is_due}

module _ (now : ℕ) where
  wake_sleeper-Rest : (n : ℕ) (w : World) → Where (Rest w) (wake_sleeper now n w)
  unfolding wake_sleeper
  wake_sleeper-Rest n w = elim (Bool-cases (is_due now (w.tcb n))) [
    | inl e ↦ rw e (change_to_state-Rest n ready w)
    | inr e ↦ rw e (Rest-self w)
  ]

  pub check_sleeping-Rest : (w : World) → Where (Rest w) (check_sleeping now w)
  unfolding check_sleeping
  check_sleeping-Rest w = each-Rest (wake_sleeper now) wake_sleeper-Rest w.sleeping_state w
