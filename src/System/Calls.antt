-- ===== src/System/Calls.antt =====
-- The calls of src/pthipth_sleep.c, src/pthipth_cond.c, src/pthipth_barrier.c, src/pthipth_set.c and
-- src/pthipth_mutex.c keep the invariant of the library.
use pthipth.Prelude.{
  ℕ, ◌≡◌, ◌≢◌, refl, ◌⊎◌, true, false, Bool-cases, inl, inr, Option, none, some, List, [], ◌∷◌,
  ◌==◌, ◌||◌, ◌>>=◌, arith, ℤ, pos, negsuc,
}
use pthipth.World.State.{Allowed}
use pthipth.World.{
  ThreadState, to_yield, ready, running, blocked, sleeping, defunct, same_state, Tcb, World,
  set_tcb, change_to_state,
}
use pthipth.World.Moves.{Returns}
use pthipth.World.Wake.{blocked-real}
use pthipth.Yield.Upkeep.{Upkept}
use pthipth.Sleep
use pthipth.Cond
use pthipth.System.Kept.{AtRest, move-Upkept, write-Upkept, each-Upkept}

module _ {A : Type 0} where
  -- The code returns, and the state satisfies `P`.
  abbrev pub Leaves : (World → Type 0) → Option (World × A) → Type 0
  Leaves P none = ⊥
  Leaves P (some (w, a)) = P w

  pub leaves :
      (P : World → Type 0) (f : World → World × A)
      → ((w : World) → P w → P (f w).0)
      → (o : Option World) → Returns P o
      → Leaves P (o >>= λ w. some (f w))
  leaves P f k none r = elim r [ ]
  leaves P f k (some w) r = k w r

-- The caller runs, and is not the idle thread.
abbrev pub Calls : (idle node : ℕ) → World → Type 0
Calls idle node w = ((w.tcb node).state ≡ running) × (node ≢ idle)

module _ (idle node : ℕ) where
  pub caller-real : (w : World) → Upkept idle node w → Calls idle node w → node ≢ 0
  caller-real w u c z = ground (arith, u.0.valid.consistent.null_lem, c.0)

  -- A write by the caller to its own fields, and its change of state.
  pub write-move :
      (w : World) (t : Tcb)
      → t.state ≡ (w.tcb node).state
      → t.cur_priority ≡ (w.tcb node).cur_priority
      → t.tid ≡ (w.tcb node).tid
      → t.aging_factor ≡ (w.tcb node).aging_factor
      → t.priority ≡ (w.tcb node).priority
      → (s : ThreadState) → AtRest s
      → ((w : World) → (w.tcb node).cur_priority ≢ some 31 → Allowed w node s)
      → Calls idle node w
      → Upkept idle node w
      → Returns (Upkept idle node) (change_to_state node s (set_tcb node t w))
  write-move w t s c d f p to rest out (run, i) u =
      let v = u.0.valid in
      let w1 = set_tcb node t w in
      let u1 =
        write-Upkept idle node w node t s c d f (ground (arith, p, v.priority_lem node))
          (λ h. ground (arith, p, v.below_idle node h)) u in
      let alive : same_state (w1.tcb node).state defunct ≡ false = ground (arith, s, run) in
      move-Upkept idle node w1 node to (caller-real w u (run, i)) alive rest
        (out w1 (u1.0.valid.outside_idle node i)) u1

  pub sleep-Upkept :
      (now : ℕ) (ms : ℤ) (w : World)
      → Calls idle node w
      → Upkept idle node w
      → Leaves (Upkept idle node) (Sleep.sleep node now ms w)
  unfolding Sleep.sleep
  sleep-Upkept now (negsuc ms) w c u = u
  sleep-Upkept now (pos ms) w c u =
      leaves (Upkept idle node) (λ w. (w, to_yield)) (λ w v. v) _
        (write-move w _ refl refl refl refl refl sleeping (refl, refl) (λ w h. h) c u)

  -- Waking a thread that is blocked.
  wake-Upkept :
      (w : World) (n : ℕ)
      → n ≢ 0
      → same_state (w.tcb n).state blocked ≡ true
      → Upkept idle node w
      → Returns (Upkept idle node) (Cond.wake n w)
  unfolding Cond.wake
  wake-Upkept w n h b u =
      let v = u.0.valid in
      let w1 = Cond.forget_cond n w in
      let u1 =
        write-Upkept idle node w n (record (w.tcb n) { current_cond = 0 }) refl refl refl refl
          (v.priority_lem n) (v.below_idle n) u in
      let alive : same_state (w1.tcb n).state defunct ≡ false = ground (arith, b) in
      move-Upkept idle node w1 n ready h alive (refl, refl) (u1.0.valid.priority_lem n) u1

  select-waits :
      (cond : ℕ) (tcb : ℕ → Tcb) (ns : List ℕ)
      → ((Cond.select cond tcb ns == 0) ≡ true)
        ⊎ (Cond.waits cond (tcb (Cond.select cond tcb ns)) ≡ true)
  unfolding Cond.select
  select-waits cond tcb [] = inl refl
  select-waits cond tcb (n ∷ ns) = elim (Bool-cases (Cond.waits cond (tcb n))) [
    | inl e ↦ rw e (inr e)
    | inr e ↦ rw e (select-waits cond tcb ns)
  ]

  waits-blocked :
      (cond : ℕ) (t : Tcb) → Cond.waits cond t ≡ true → same_state t.state blocked ≡ true
  waits-blocked cond t e = ground (arith, e)

  pub signal-Upkept :
      (cond : ℕ) (w : World) → Upkept idle node w → Leaves (Upkept idle node) (Cond.signal cond w)
  unfolding Cond.signal Cond.wake_selected
  signal-Upkept cond w u = elim (Bool-cases (cond == 0)) [
    | inl e ↦ rw e u
    | inr e ↦
        let n = Cond.select cond w.tcb w.blocked_state in
        rw e (
          leaves (Upkept idle node) (λ w. (w, pos 0)) (λ w v. v) (Cond.wake_selected n w)
            (elim (Bool-cases (n == 0)) [
              | inl z ↦ rw z u
              | inr z ↦ rw z (elim (select-waits cond w.tcb w.blocked_state) [
                | inl k ↦ cc
                | inr k ↦ wake-Upkept w n (ground arith) (waits-blocked cond (w.tcb n) k) u
              ])
            ]))
  ]

  wake_waiter-Upkept :
      (cond n : ℕ) (w : World)
      → n ≢ 0
      → Upkept idle node w
      → Returns (Upkept idle node) (Cond.wake_waiter cond n w)
  unfolding Cond.wake_waiter
  wake_waiter-Upkept cond n w h u = elim (Bool-cases (Cond.waits cond (w.tcb n))) [
    | inl e ↦ rw e (wake-Upkept w n h (waits-blocked cond (w.tcb n) e) u)
    | inr e ↦ rw e u
  ]

  pub broadcast-Upkept :
      (cond : ℕ) (w : World)
      → Upkept idle node w
      → Leaves (Upkept idle node) (Cond.broadcast cond w)
  unfolding Cond.broadcast
  broadcast-Upkept cond w u = elim (Bool-cases (cond == 0)) [
    | inl e ↦ rw e u
    | inr e ↦ rw e (
        leaves (Upkept idle node) (λ w. (w, pos 0)) (λ w v. v) _
          (each-Upkept idle node (Cond.wake_waiter cond) (wake_waiter-Upkept cond) w.blocked_state
            (blocked-real idle w u.0.valid) w u))
  ]

  pub wait-Upkept :
      (cond mutex : ℕ) (w : World)
      → Calls idle node w
      → Upkept idle node w
      → Leaves (Upkept idle node) (Cond.wait node cond mutex w)
  unfolding Cond.wait
  wait-Upkept cond mutex w c u = elim (Bool-cases ((cond == 0) || (mutex == 0))) [
    | inl e ↦ rw e u
    | inr e ↦ rw e (
        leaves (Upkept idle node) (λ w. (w, to_yield)) (λ w v. v) _
          (write-move w _ refl refl refl refl refl blocked (refl, refl) (λ w h. h) c u))
  ]

  pub wait_non-Upkept :
      (cond : ℕ) (w : World)
      → Calls idle node w
      → Upkept idle node w
      → Leaves (Upkept idle node) (Cond.wait_non node cond w)
  unfolding Cond.wait_non
  wait_non-Upkept cond w c u = elim (Bool-cases (cond == 0)) [
    | inl e ↦ rw e u
    | inr e ↦
        let alive : same_state (w.tcb node).state defunct ≡ false = ground (arith, c.0) in
        rw e (
          leaves (Upkept idle node)
            (λ w. (set_tcb node (record (w.tcb node) { current_cond = cond }) w, to_yield))
            (λ w v.
              write-Upkept idle node w node (record (w.tcb node) { current_cond = cond }) refl refl
                refl refl (v.0.valid.priority_lem node) (v.0.valid.below_idle node) v)
            _
            (move-Upkept idle node w node blocked (caller-real w u c) alive (refl, refl)
              (u.0.valid.outside_idle node c.1) u))
  ]
