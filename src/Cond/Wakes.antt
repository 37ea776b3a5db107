-- ===== src/Cond/Wakes.antt =====
-- What `wake` and `broadcast` of src/pthipth_cond.c do.
use pthipth.Prelude.{
  ℕ, ◌≡◌, ◌≢◌, refl, ◌∙◌, Bool, true, false, some, ◌==◌, arith, Bool-cases, inl, inr, pos,
}
use pthipth.World.{World, Tcb, ready}
use pthipth.World.Moves.{Returns, Returns-mono}
use pthipth.World.Result.{ReturnsWith, with-value}
use pthipth.World.Valid.{
  Valid, Changed, set_tcb-Valid, change_to_state-Valid, Changed-self, Changed-other,
}
use pthipth.World.Wake.{Awake, Wakes, Woken, each-Awake, idle-Wakes, blocked-real}
use pthipth.Cond.{waits, forget_cond, wake, wake_waiter, broadcast}

abbrev pub cleared : ℕ → ℕ
cleared c = 0

module _ (idle : ℕ) (w : World) (n : ℕ) (h : n ≢ 0) (v : Valid idle w) where
  forgotten : Valid idle (forget_cond n w)
  forgotten = set_tcb-Valid idle w n _ v refl refl (v.priority_lem n) (v.below_idle n)

  cleared-Woken :
      (test : Tcb → Bool) (w' : World)
      → Changed (forget_cond n w) n ready w'
      → test (w.tcb n) ≡ true
      → Woken cleared (test (w.tcb n)) (w.tcb n) (w'.tcb n)
  cleared-Woken test w' c e =
      rw (e, Changed-self (forget_cond n w) n ready w' c)
        (refl, ground arith, ground arith, ground arith)

  pub wake-Wakes :
      (test : Tcb → Bool)
      → test (w.tcb n) ≡ true
      → Returns (Wakes idle cleared test (λ n w. some w) w n) (wake n w)
  unfolding wake
  wake-Wakes test e =
      Returns-mono (λ w'. Valid idle w' × Changed (forget_cond n w) n ready w')
        (Wakes idle cleared test (λ n w. some w) w n)
        (λ w' r. (
          r.0,
          cleared-Woken test w' r.1 e,
          λ m i. Changed-other (forget_cond n w) n ready w' r.1 m i ∙ (ground arith),
        ))
        _
        (change_to_state-Valid idle (forget_cond n w) n h forgotten ready
          (forgotten.priority_lem n))

module _ (idle cond : ℕ) where
  wake_waiter-Wakes :
      (w : World) (n : ℕ)
      → n ≢ 0
      → Valid idle w
      → Returns (Wakes idle cleared (waits cond) (wake_waiter cond) w n) (wake_waiter cond n w)
  unfolding wake_waiter
  wake_waiter-Wakes w n h v = elim (Bool-cases (waits cond (w.tcb n))) [
    | inl e ↦ rw e (wake-Wakes idle w n h v (waits cond) e)
    | inr e ↦ rw e (idle-Wakes idle cleared (waits cond) w n v e)
  ]

  -- On a condition variable that is not NULL, `broadcast` returns 0 and keeps the invariant of the
  -- scheduler; the threads that wait on the variable are ready and wait on none, and every other thread
  -- is as it was.
  pub broadcast-Awake :
      cond ≢ 0
      → (w : World) → Valid idle w
      → ReturnsWith (pos 0) (Awake idle cleared (waits cond) w) (broadcast cond w)
  unfolding broadcast
  broadcast-Awake h w v =
      let real : (cond == 0) ≡ false = ground arith in
      rw real (
        with-value (pos 0) (Awake idle cleared (waits cond) w) _ (
          each-Awake idle cleared (waits cond) (wake_waiter cond) wake_waiter-Wakes w
            w.blocked_state v v.consistent.blocked_Distinct (blocked-real idle w v)
            (λ m e. ground (arith, v.consistent.blocked_lem m))))
