-- ===== src/Barrier/Opens.antt =====
-- What the threads of a barrier see of `wait` of src/pthipth_barrier.c.
use pthipth.Prelude.{
  ℕ, ◌<◌, ◌≡◌, ◌≢◌, refl, true, false, Option, none, some, suc, ◌==◌, ◌||◌, arith, Bool-cases, inl,
  inr, ◌>>=◌, pos, lt→ltb, ge→ltb, ◌≤◌,
}
use pthipth.World.{World, blocked, Next, returned, to_yield, set_tcb}
use pthipth.World.Moves.{Returns, Returns-mono}
use pthipth.World.Valid.{
  Valid, Changed, set_tcb-Valid, change_to_state-Valid, Changed-self, Changed-other,
}
use pthipth.World.Wake.{Awake, Wakes, same, each-Awake, wake-Wakes, idle-Wakes, blocked-real}
use pthipth.Barrier.{Barrier, stands, wake_stander, stand, open_barrier, wait, serial_thread}

module _ (idle address : ℕ) where
  wake_stander-Wakes :
      (w : World) (n : ℕ)
      → n ≢ 0
      → Valid idle w
      → Returns
          (Wakes idle same (stands address) (wake_stander address) w n)
          (wake_stander address n w)
  unfolding wake_stander
  wake_stander-Wakes w n h v = elim (Bool-cases (stands address (w.tcb n))) [
    | inl e ↦ rw e (wake-Wakes idle (stands address) w n h v e)
    | inr e ↦ rw e (idle-Wakes idle same (stands address) w n v e)
  ]

  open_barrier-Awake :
      (w : World)
      → Valid idle w
      → Returns (Awake idle same (stands address) w) (open_barrier address w)
  unfolding open_barrier
  open_barrier-Awake w v =
      each-Awake idle same (stands address) (wake_stander address) wake_stander-Wakes w
        w.blocked_state v v.consistent.blocked_Distinct (blocked-real idle w v)
        (λ m e. ground (arith, v.consistent.blocked_lem m))

-- A thread that stands at the barrier, and the others as they were.
abbrev pub Stands : (idle self address : ℕ) → World → World → Type 0
Stands idle self address w w' =
    Valid idle w'
    × (stands address (w'.tcb self) ≡ true)
    × ((m : ℕ) → m ≢ self → w'.tcb m ≡ w.tcb m)

abbrev pub ReturnsAt : Barrier → Next → (World → Type 0) → Option (Barrier × World × Next) → Type 0
ReturnsAt b next P none = ⊥
ReturnsAt b next P (some (b', w, next')) = (b' ≡ b) × P w × (next' ≡ next)

at-value :
    (b : Barrier) (next : Next) (P : World → Type 0) (o : Option World)
    → Returns P o
    → ReturnsAt b next P (o >>= λ w. some (b, w, next))
at-value b next P none r = elim r [ ]
at-value b next P (some w) r = (refl, r, refl)

module _ (idle self address : ℕ) (h : address ≢ 0) (r : self ≢ 0) (w : World)
    (v : Valid idle w) where
  stand-Stands : self ≢ idle → Returns (Stands idle self address w) (stand self address w)
  unfolding stand
  stand-Stands i =
      let w1 = set_tcb self (record (w.tcb self) { current_barrier = address }) w in
      let u = set_tcb-Valid idle w self _ v refl refl (v.priority_lem self) (v.below_idle self) in
      Returns-mono (λ w'. Valid idle w' × Changed w1 self blocked w') (Stands idle self address w)
        (λ w' e. (
          e.0,
          ground (arith, Changed-self w1 self blocked w' e.1),
          λ m k. ground (arith, Changed-other w1 self blocked w' e.1 m k),
        ))
        _ (change_to_state-Valid idle w1 self r u blocked (ground (arith, v.outside_idle self i)))

  -- At a barrier that is initialised and not yet full, `wait` of a thread other than the idle one counts
  -- the thread and goes on to yield; the thread is blocked at the barrier, every other thread is as it was.
  pub wait-Stands :
      self ≢ idle
      → (count waiting : ℕ) → suc waiting < count
      → ReturnsAt
          (record { count = pos count; waiting = pos (suc waiting) })
          to_yield
          (Stands idle self address w)
          (wait self address (record { count = pos count; waiting = pos waiting }) w)
  unfolding wait
  wait-Stands i count waiting l =
      let real : ((address == 0) || (self == 0)) ≡ false = ground arith in
      rw (real, lt→ltb (suc waiting) count l)
        (at-value (record { count = pos count; waiting = pos (suc waiting) }) to_yield
          (Stands idle self address w) _ (stand-Stands i))

  -- At a barrier that the thread fills, `wait` returns `PTHIPTH_BARRIER_SERIAL_THREAD` to this thread, which is
  -- the last one to come, resets the count, and keeps the invariant of the scheduler. Each thread that is
  -- blocked, at the barrier or anywhere else, and has this barrier in `current_barrier` is ready, with its
  -- priority as it was; every other thread is as it was.
  pub wait-Awake :
      (count waiting : ℕ)
      → count ≤ suc waiting
      → ReturnsAt
          (record { count = pos count; waiting = pos 0 })
          (returned serial_thread)
          (Awake idle same (stands address) w)
          (wait self address (record { count = pos count; waiting = pos waiting }) w)
  unfolding wait
  wait-Awake count waiting l =
      let real : ((address == 0) || (self == 0)) ≡ false = ground arith in
      rw (real, ge→ltb (suc waiting) count l)
        (at-value (record { count = pos count; waiting = pos 0 }) (returned serial_thread)
          (Awake idle same (stands address) w) _ (open_barrier-Awake idle address w v))
