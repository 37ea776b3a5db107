-- ===== src/Store/Refines.antt =====
-- `__pthipth_change_to_state` of src/pthipth_utils.c on the pointers follows that on the lists of World.
use pthipth.Prelude.{
  ℕ, ◌≡◌, ◌≢◌, refl, ap, ◌∙◌, true, false, Bool-cases, inl, inr, Option, none, some, ◌>>=◌, arith,
  has, has-erase,
}
use pthipth.Ready.{put}
use pthipth.World
use pthipth.World.{
  ThreadState, ready, running, blocked, sleeping, defunct, same_state, Tcb, World, set_state,
}
use pthipth.World.Invariant.{Consistent}
use pthipth.World.State.{Allowed}
use pthipth.World.Moves.{Returns}
use pthipth.World.Valid.{Valid, Changed, change_to_state-Valid}
use pthipth.Yield.Files.{KeptUp}
use pthipth.Store
use pthipth.Store.{Store, queue_at, with_blocked, with_sleeping}
use pthipth.Store.Shows.{Shows}
use pthipth.Store.Buckets.{Follows}
use pthipth.Store.Queues.{Apart, Absent, leave_blocked, leave_sleeping}
use pthipth.Store.Enters.{Fit, entered, fit}

-- Both return, and the results are related.
abbrev pub Refines : Option Store → Option World → Type 0
Refines (some s) (some w) = Shows s w
Refines _ _ = ⊥

refines :
    (P : World → Type 0) (o : Option Store) (p : Option World)
    → Returns P p
    → Follows Shows o p
    → Refines o p
refines P o none r f = elim r [ ]
refines P none (some w) r f = f
refines P (some s) (some w) r f = f

module _ (idle n : ℕ) (h : n ≢ 0) (t : ThreadState) (s : Store) (w : World) (v : Shows s w)
    (k : KeptUp idle w) (alive : same_state (w.tcb n).state defunct ≡ false)
    (l : Allowed w n t) where
  c : Consistent w
  c = k.valid.consistent

  apart : Apart w
  apart = (
    (λ m i. ground (arith, c.blocked_lem m, c.sleeping_lem m, i)),
    (λ m i. ground (arith, c.blocked_lem m, k.dead_lem m i)),
    (λ m i. ground (arith, c.sleeping_lem m, k.dead_lem m i)),
  )

  not_detached : has n w.defunct_state ≡ false
  not_detached = elim (Bool-cases (has n w.defunct_state)) [
    | inl e ↦ let d = k.dead_lem n e in cc
    | inr e ↦ e
  ]

  after_leave :
      (w1 : World)
      → Apart w1
      → Absent n w1
      → Fit n t (w1.tcb n) w1.ready_queue
      → (o : Option Store) → Follows Shows o (some w1)
      → Follows Shows
          (o >>= λ s. Store.enter n t s >>= λ s. some (record s { state = put s.state n t }))
          (World.enter n t w1 >>= λ w. some (set_state n t w))
  after_leave w1 a o f none r = elim r [ ]
  after_leave w1 a o f (some s1) r = entered n h s1 w1 r a t o f

  -- A thread that is in no state queue.
  elsewhere :
      same_state (w.tcb n).state blocked ≡ false
      → same_state (w.tcb n).state sleeping ≡ false
      → same_state (w.tcb n).state t ≡ false
      → Follows Shows
          (some s >>= λ s. Store.enter n t s >>= λ s. some (record s { state = put s.state n t }))
          (World.enter n t w >>= λ w. some (set_state n t w))
  elsewhere a b d =
      after_leave w apart (c.blocked_lem n ∙ a, c.sleeping_lem n ∙ b, not_detached)
        (fit n w c t l d) (some s) v

  by_state :
      (o : ThreadState)
      → (w.tcb n).state ≡ o
      → same_state (w.tcb n).state t ≡ false
      → Follows Shows
          (Store.leave n o s >>= λ s.
            Store.enter n t s >>= λ s. some (record s { state = put s.state n t }))
          (World.enter n t (World.leave n o w) >>= λ w. some (set_state n t w))
  unfolding World.leave Store.leave
  by_state blocked e d =
      let here : has n w.blocked_state ≡ true = ground (arith, c.blocked_lem n, e) in
      after_leave (World.leave n blocked w)
        (
          (λ m i. ground (arith, apart.0 m i, has-erase m n w.blocked_state c.blocked_Distinct)),
          (λ m i. ground (arith, apart.1 m i, has-erase m n w.blocked_state c.blocked_Distinct)),
          apart.2,
        )
        (
          ground (arith, has-erase n n w.blocked_state c.blocked_Distinct),
          ground (arith, c.sleeping_lem n, e),
          not_detached,
        )
        (fit n w c t l d) (Store.leave n blocked s) (leave_blocked n s w v apart here)
  by_state sleeping e d =
      let here : has n w.sleeping_state ≡ true = ground (arith, c.sleeping_lem n, e) in
      after_leave (World.leave n sleeping w)
        (
          (λ m i.
              apart.0 m (ground (arith, i, has-erase m n w.sleeping_state c.sleeping_Distinct))),
          apart.1,
          (λ m i. ground (arith, apart.2 m i, has-erase m n w.sleeping_state c.sleeping_Distinct)),
        )
        (
          ground (arith, c.blocked_lem n, e),
          ground (arith, has-erase n n w.sleeping_state c.sleeping_Distinct),
          not_detached,
        )
        (fit n w c t l d) (Store.leave n sleeping s) (leave_sleeping n s w v apart here)
  by_state ready e d =
      elsewhere (ap (λ o. same_state o blocked) e) (ap (λ o. same_state o sleeping) e) d
  by_state running e d =
      elsewhere (ap (λ o. same_state o blocked) e) (ap (λ o. same_state o sleeping) e) d
  by_state defunct e d =
      elsewhere (ap (λ o. same_state o blocked) e) (ap (λ o. same_state o sleeping) e) d

  change_to_state-Follows :
      Follows Shows (Store.change_to_state n t s) (World.change_to_state n t w)
  unfolding Store.change_to_state World.change_to_state
  change_to_state-Follows = elim (Bool-cases (same_state (w.tcb n).state t)) [
    | inl e ↦ rw (v.state_lem n, e) v
    | inr e ↦ rw (v.state_lem n, e) (by_state (w.tcb n).state refl e)
  ]

  -- If the pointers hold a state that keeps the invariant of the library, `__pthipth_change_to_state` on
  -- the pointers dereferences no NULL for a thread that has not ended, and leaves pointers that hold, in
  -- every queue, what the change of state on the lists leaves; the thread must not be the idle one where it
  -- leaves the bucket queue.
  pub change_to_state-Refines : Refines (Store.change_to_state n t s) (World.change_to_state n t w)
  change_to_state-Refines =
      refines (λ w'. Valid idle w' × Changed w n t w') (Store.change_to_state n t s)
        (World.change_to_state n t w) (change_to_state-Valid idle w n h k.valid t l)
        change_to_state-Follows
