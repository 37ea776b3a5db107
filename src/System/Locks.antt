-- ===== src/System/Locks.antt =====
-- The calls of src/pthipth_barrier.c, src/pthipth_set.c and src/pthipth_mutex.c keep the invariant of the
-- library.
use pthipth.Prelude.{
  ℕ, ◌<◌, ◌-◌, ◌≡◌, ◌≢◌, refl, ap, ◌∙◌, ==_iff, Bool, true, false, Bool-cases, inl, inr, Option,
  none, some, ◌==◌, ◌&&◌, ◌||◌, ◌>>=◌, arith, ℤ, pos, incr, decr, is_zero,
}
use pthipth.Avl.{search_tid}
use pthipth.Avl.Order.{search_tid-find}
use pthipth.World.{
  ready, running, blocked, defunct, same_state, Tcb, World, set_tcb, bq_reinsert, Next, to_yield,
  returned, is_some, up, highest_priority,
}
use pthipth.World.Invariant.{queued}
use pthipth.World.Moves.{Returns, same_state-eq}
use pthipth.World.Wake.{blocked-real}
use pthipth.Yield.Upkeep.{Upkept}
use pthipth.Barrier
use pthipth.Barrier.{Barrier, stands, wake_stander, stand, open_barrier}
use pthipth.Mutex.{Mutex, set_prio, lock_taken, give_back, unlock_owned, unlock}
use pthipth.Prelude.{ltz}
use pthipth.System.Kept.{move-Upkept, write-Upkept, reinsert-Upkept, each-Upkept}
use pthipth.System.Calls.{Leaves, leaves, Calls, caller-real, write-move}

module _ (idle node : ℕ) where
  stands-blocked :
      (address : ℕ) (t : Tcb) → stands address t ≡ true → same_state t.state defunct ≡ false
  stands-blocked address t e = ground (arith, e)

  wake_stander-Upkept :
      (address n : ℕ) (w : World)
      → n ≢ 0
      → Upkept idle node w
      → Returns (Upkept idle node) (wake_stander address n w)
  unfolding wake_stander
  wake_stander-Upkept address n w h u = elim (Bool-cases (stands address (w.tcb n))) [
    | inl e ↦ rw e (
        move-Upkept idle node w n ready h (stands-blocked address (w.tcb n) e) (refl, refl)
          (u.0.valid.priority_lem n) u)
    | inr e ↦ rw e u
  ]

  abbrev pub LeavesAt : Option (Barrier × World × Next) → Type 0
  LeavesAt none = ⊥
  LeavesAt (some (b, w, x)) = Upkept idle node w

  at_barrier :
      (b : Barrier) (x : Next) (o : Option World)
      → Returns (Upkept idle node) o
      → LeavesAt (o >>= λ w. some (b, w, x))
  at_barrier b x none r = elim r [ ]
  at_barrier b x (some w) r = r

  pub barrier_wait-Upkept :
      (address : ℕ) (b : Barrier) (w : World)
      → Calls idle node w
      → Upkept idle node w
      → LeavesAt (Barrier.wait node address b w)
  unfolding Barrier.wait stand open_barrier
  barrier_wait-Upkept address b w c u = elim (Bool-cases ((address == 0) || (node == 0))) [
    | inl e ↦ rw e u
    | inr e ↦ elim (Bool-cases (ltz (incr b.waiting) b.count)) [
      | inl l ↦
          rw (e, l)
            (at_barrier (record b { waiting = incr b.waiting }) to_yield _
              (write-move idle node w _ refl refl refl refl refl blocked (refl, refl) (λ w h. h) c
                u))
      | inr l ↦
          rw (e, l)
            (at_barrier (record b { waiting = pos 0 }) (returned (pos 1)) _
              (each-Upkept idle node (wake_stander address) (wake_stander-Upkept address)
                w.blocked_state (blocked-real idle w u.0.valid) w u))
    ]
  ]

  -- Another priority for a thread that runs, with other fields that place it nowhere.
  pub prioritise :
      (w : World) (n : ℕ) (t : Tcb)
      → n ≢ 0
      → n ≢ idle
      → t.state ≡ (w.tcb n).state
      → t.cur_priority ≡ (w.tcb n).cur_priority
      → t.tid ≡ (w.tcb n).tid
      → t.aging_factor ≡ (w.tcb n).aging_factor
      → t.priority < 31
      → queued (w.tcb n).state ≡ true
      → Upkept idle node w
      → Returns (Upkept idle node) (bq_reinsert n (set_tcb n t w))
  prioritise w n t h i s c d f p q u =
      let u1 = write-Upkept idle node w n t s c d f (omega arith) (λ j. omega arith) u in
      reinsert-Upkept idle node (set_tcb n t w) n h i (ground (arith, s, q)) u1

  pub runs-queued : (t : Tcb) → t.state ≡ running → queued t.state ≡ true
  runs-queued t e = ap queued e

  pub set_prio-Upkept :
      (p : ℕ) (w : World)
      → p < 31
      → Calls idle node w
      → Upkept idle node w
      → Leaves (Upkept idle node) (set_prio node (pos p) w)
  unfolding set_prio
  set_prio-Upkept p w l c u =
      let real : (node == 0) ≡ false = ground (arith, caller-real idle node w u c) in
      rw real (
        leaves (Upkept idle node) (λ w. (w, pos p)) (λ w v. v) _
          (prioritise w node (record (w.tcb node) { priority = p; old_priority = p })
            (caller-real idle node w u c) c.1 refl refl refl refl l (runs-queued (w.tcb node) c.0)
            u))

  pub lock_taken-Upkept :
      (gettid : ℕ) (m : Mutex) (w : World)
      → Calls idle node w
      → Upkept idle node w
      → Leaves (Upkept idle node) (lock_taken node gettid w m)
  unfolding lock_taken
  lock_taken-Upkept gettid m w c u =
      leaves (Upkept idle node)
        (λ w. (
          set_tcb node (record (w.tcb node) { mutex_count = incr (w.tcb node).mutex_count }) w,
          record m { owner_tid = gettid },
        ))
        (λ w v.
          write-Upkept idle node w node
            (record (w.tcb node) { mutex_count = incr (w.tcb node).mutex_count }) refl refl refl
            refl (v.0.valid.priority_lem node) (v.0.valid.below_idle node) v)
        _
        (prioritise w node (record (w.tcb node) { priority = highest_priority - 1 })
          (caller-real idle node w u c) c.1 refl refl refl refl (omega arith)
          (runs-queued (w.tcb node) c.0) u)

  and_right : (a b : Bool) → (a && b) ≡ true → b ≡ true
  and_right a b e = ground (arith, e)

  give_back-Upkept :
      (n : ℕ) (w : World)
      → n ≢ 0
      → n ≢ idle
      → (w.tcb n).old_priority < 31
      → Upkept idle node w
      → Returns (Upkept idle node) (give_back n w)
  unfolding give_back
  give_back-Upkept n w h i l u =
      let t = record (w.tcb n) { mutex_count = decr (w.tcb n).mutex_count } in
      let w1 = set_tcb n t w in
      let u1 =
        write-Upkept idle node w n t refl refl refl refl (u.0.valid.priority_lem n)
          (u.0.valid.below_idle n) u in
      elim (Bool-cases (is_zero (w1.tcb n).mutex_count && same_state (w1.tcb n).state running)) [
        | inl e ↦
            let old : (w1.tcb n).old_priority < 31 = ground (arith, l) in
            let r : queued (w1.tcb n).state ≡ true =
              runs-queued (w1.tcb n) (same_state-eq (w1.tcb n).state running (and_right _ _ e)) in
            rw e (
              prioritise w1 n (record (w1.tcb n) { priority = (w1.tcb n).old_priority }) h i refl
                refl refl refl old r u1)
        | inr e ↦ rw e u1
      ]

  abbrev pub LeavesMutex : Option (World × Mutex × ℤ) → Type 0
  LeavesMutex none = ⊥
  LeavesMutex (some (w, m, z)) = Upkept idle node w

  with_mutex :
      (m : Mutex) (z : ℤ) (o : Option World)
      → Returns (Upkept idle node) o
      → LeavesMutex (o >>= λ w. some (w, m, z))
  with_mutex m z none r = elim r [ ]
  with_mutex m z (some w) r = r

  owned-Upkept :
      (m : Mutex) (w : World)
      → m.owner_tid ≡ (w.tcb node).tid
      → is_some m.futx ≡ true
      → (w.tcb node).old_priority < 31
      → node ≢ 0
      → node ≢ idle
      → same_state (w.tcb node).state defunct ≡ false
      → Upkept idle node w
      → LeavesMutex (unlock_owned w m)
  unfolding unlock_owned
  owned-Upkept m w own made l h i alive u =
      let who : search_tid m.owner_tid w.avl_root ≡ node =
        ap (λ k. search_tid k w.avl_root) own
        ∙ search_tid-find (w.tcb node).tid w.avl_root u.0.files.sorted_lem
        ∙ u.0.known_lem node alive in
      let real : (node == 0) ≡ false = ground arith in
      rw (who, real, made)
        (with_mutex (record { futx = some up; owner_tid = 0 }) (pos 0) (give_back node w)
          (give_back-Upkept node w h i l u))

  -- Of a thread that runs, or of one that `pthipth_cond_wait` has blocked.
  pub unlock-Upkept :
      (exists : Bool) (m : Mutex) (w : World)
      → is_some m.futx ≡ true
      → (w.tcb node).old_priority < 31
      → node ≢ 0
      → node ≢ idle
      → same_state (w.tcb node).state defunct ≡ false
      → Upkept idle node w
      → LeavesMutex (unlock exists (w.tcb node).tid w m)
  unfolding unlock
  unlock-Upkept false m w made l h i alive u = u
  unlock-Upkept true m w made l h i alive u = elim (Bool-cases (m.owner_tid == 0)) [
    | inl e ↦ rw e u
    | inr e ↦ elim (Bool-cases (m.owner_tid == (w.tcb node).tid)) [
      | inl o ↦
          rw (e, o)
            (owned-Upkept m w ((==_iff m.owner_tid (w.tcb node).tid).0 o) made l h i alive u)
      | inr o ↦ rw (e, o) u
    ]
  ]
