-- ===== src/Threads/Exit.antt =====
-- What the start of `pthipth_exit` of src/pthipth_exit.c leaves.
use pthipth.Prelude.{
  ℕ, ◌≡◌, ◌≢◌, refl, ap, ◌∙◌, inl, inr, Option, none, some, [], ◌∷◌, ◌++◌, ◌==◌, ◌&&◌, arith,
  Bool-cases, ◌>>=◌,
}
use pthipth.World.{World, ready, defunct, same_state, set_tcb, change_to_state}
use pthipth.World.Moves.{Returns, Returns-mono}
use pthipth.World.Valid.{
  Valid, Changed, Changed-self, Changed-other, change_to_state-Valid, set_tcb-Valid, rest-Valid,
}
use pthipth.Threads.Finish.{exit_start, wake_joiner, finish, queue_detached}

-- The thread that waits for this one is ready, if there is one.
abbrev pub Woke : (joiner : ℕ) → World → Type 0
Woke joiner w = joiner ≢ 0 → (w.tcb joiner).state ≡ ready

module _ (idle self return_val : ℕ) (h : self ≢ 0) (i : self ≢ idle) where
  wake_joiner-Woke :
      (w : World)
      → Valid idle w
      → Returns (λ w'. Valid idle w' × Woke (w.tcb self).blocked_for_join w') (wake_joiner self w)
  unfolding wake_joiner
  wake_joiner-Woke w v = elim (Bool-cases ((w.tcb self).blocked_for_join == 0)) [
    | inl e ↦ rw e (v, λ k. ground arith)
    | inr e ↦
        let j = (w.tcb self).blocked_for_join in
        let k : j ≢ 0 = ground arith in
        rw e (
          Returns-mono (λ w'. Valid idle w' × Changed w j ready w')
            (λ w'. Valid idle w' × Woke j w')
            (λ w' r. (r.0, λ z. ap (λ t. t.state) (Changed-self w j ready w' r.1)))
            (change_to_state j ready w)
            (change_to_state-Valid idle w j k v ready (v.priority_lem j)))
  ]

  -- The thread has ended, and another one is as it was.
  abbrev Ended : World → World → Type 0
  Ended w w' =
      Valid idle w'
      × ((w'.tcb self).state ≡ defunct)
      × ((w'.tcb self).return_value ≡ return_val)
      × ((m : ℕ) → m ≢ self → w'.tcb m ≡ w.tcb m)

  finish-Ended : (w : World) → Valid idle w → Returns (Ended w) (finish self return_val w)
  unfolding finish
  finish-Ended w v =
      let t = record (w.tcb self) { return_value = return_val } in
      let w1 = set_tcb self t w in
      let u = set_tcb-Valid idle w self t v refl refl (v.priority_lem self) (v.below_idle self) in
      Returns-mono (λ w'. Valid idle w' × Changed w1 self defunct w') (Ended w)
        (λ w' r. (
          r.0,
          ap (λ t. t.state) (Changed-self w1 self defunct w' r.1),
          ap (λ t. t.return_value) (Changed-self w1 self defunct w' r.1) ∙ (ground arith),
          λ m k. Changed-other w1 self defunct w' r.1 m k ∙ (ground arith),
        ))
        (change_to_state self defunct w1)
        (change_to_state-Valid idle w1 self h u defunct (ground (arith, v.outside_idle self i)))

  abbrev pub Exited : (joiner : ℕ) → World → Type 0
  Exited joiner w =
      Valid idle w
      × ((w.tcb self).state ≡ defunct)
      × ((w.tcb self).return_value ≡ return_val)
      × Woke joiner w

  queued-Exited : (joiner : ℕ) (w : World) → Exited joiner w → Exited joiner (queue_detached self w)
  unfolding queue_detached
  queued-Exited joiner w (v, a, b, c) =
      elim (Bool-cases ((w.tcb self).is_detach && same_state (w.tcb self).state defunct)) [
        | inl d ↦
            rw d
              (rest-Valid idle w w.avl_root (w.defunct_state ++ (self ∷ [])) w.current v, a, b, c)
        | inr d ↦ rw d (v, a, b, c)
      ]

  then_queue :
      (joiner : ℕ) (o : Option World)
      → Returns (Exited joiner) o
      → Returns (Exited joiner) (o >>= λ w. some (queue_detached self w))
  then_queue joiner none r = elim r [ ]
  then_queue joiner (some w) r = queued-Exited joiner w r

  then_finish :
      (joiner : ℕ) (o : Option World)
      → joiner ≢ self
      → Returns (λ w. Valid idle w × Woke joiner w) o
      → Returns
          (Exited joiner)
          (o >>= λ w. finish self return_val w >>= λ w. some (queue_detached self w))
  then_finish joiner none n r = elim r [ ]
  then_finish joiner (some w) n (v, k) = then_queue joiner (finish self return_val w) (
      Returns-mono (Ended w) (Exited joiner)
        (λ w' e. (e.0, e.1, e.2, λ z. ap (λ t. t.state) (e.3 joiner n) ∙ k z))
        (finish self return_val w) (finish-Ended w v))

  -- Up to the dispatcher, `pthipth_exit` of a thread other than the idle one faults nowhere and keeps the
  -- invariant of the scheduler; the thread is defunct with its return value, and the thread that has joined
  -- it, if there is one and it is another one, is ready.
  pub exit_start-Exited :
      (w : World)
      → Valid idle w
      → (w.tcb self).blocked_for_join ≢ self
      → Returns (Exited (w.tcb self).blocked_for_join) (exit_start self return_val w)
  unfolding exit_start
  exit_start-Exited w v n =
      then_finish (w.tcb self).blocked_for_join (wake_joiner self w) n (wake_joiner-Woke w v)
