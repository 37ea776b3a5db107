-- ===== src/Mutex/Locks.antt =====
-- What src/pthipth_mutex.c and src/pthipth_set.c do to the priority of the thread.
use pthipth.Prelude.{
  ℕ, ◌<◌, ◌-◌, ◌≡◌, ◌≢◌, refl, ap, subst, ◌∙◌, true, false, not, Option, none, some, ◌==◌, ◌&&◌,
  arith, ◌>>=◌, ℤ, pos, incr, decr, is_zero,
}
use pthipth.Avl.{search_tid}
use pthipth.Ready.{buckets_count}
use pthipth.World.{
  World, Tcb, running, same_state, up, set_tcb, bq_reinsert, is_some, highest_priority,
}
use pthipth.World.Invariant.{queued}
use pthipth.World.Moves.{Returns, Returns-mono}
use pthipth.World.Result.{ReturnsWith, with-value}
use pthipth.World.State.Reinsert.{InBucket, bq_reinsert-InBucket}
use pthipth.World.Valid.{Valid, Changed, Changed-self, Changed-other, set_tcb-Valid}
use pthipth.Mutex.{Mutex, lock_taken, give_back, unlock_owned, unlock, set_prio}

-- The thread is in the same state with another priority and in the bucket of it, and the others are as they
-- were.
abbrev pub Prioritised : (idle n priority : ℕ) → World → World → Type 0
Prioritised idle n priority w w' =
    Valid idle w'
    × ((w'.tcb n).priority ≡ priority)
    × ((w'.tcb n).state ≡ (w.tcb n).state)
    × ((m : ℕ) → m ≢ n → w'.tcb m ≡ w.tcb m)
    × InBucket n priority w'

-- The same, and the fields of `t` besides.
abbrev Kept : (idle n : ℕ) → World → Tcb → World → Type 0
Kept idle n w t w' =
    Prioritised idle n t.priority w w'
    × ((w'.tcb n).mutex_count ≡ t.mutex_count)
    × ((w'.tcb n).old_priority ≡ t.old_priority)

module _ (idle n : ℕ) (h : n ≢ 0) (i : n ≢ idle) (w : World) (v : Valid idle w)
    (q : queued (w.tcb n).state ≡ true) where
  moved :
      (t : Tcb) (w' : World)
      → t.state ≡ (w.tcb n).state
      → (Valid idle w' × Changed (set_tcb n t w) n ((set_tcb n t w).tcb n).state w')
        × InBucket n ((set_tcb n t w).tcb n).priority w'
      → Kept idle n w t w'
  moved t w' s (r, b) =
      let w1 = set_tcb n t w in
      let base : w1.tcb n ≡ t = ground arith in
      let own = Changed-self w1 n (w1.tcb n).state w' r.1 in
      (
        (
          r.0,
          ap (λ x. x.priority) own ∙ ap (λ x. x.priority) base,
          ap (λ x. x.state) own ∙ ap (λ x. x.state) base ∙ s,
          (λ m k. Changed-other w1 n (w1.tcb n).state w' r.1 m k ∙ (ground arith)),
          subst (λ p. InBucket n p w') (ap (λ x. x.priority) base) b,
        ),
        ap (λ x. x.mutex_count) own ∙ ap (λ x. x.mutex_count) base,
        ap (λ x. x.old_priority) own ∙ ap (λ x. x.old_priority) base,
      )

  -- A write of the priority, and of fields that place the thread nowhere, and the reinsertion.
  reprioritise :
      (t : Tcb)
      → t.state ≡ (w.tcb n).state
      → t.cur_priority ≡ (w.tcb n).cur_priority
      → t.priority < buckets_count
      → t.priority ≢ 31
      → Returns (Kept idle n w t) (bq_reinsert n (set_tcb n t w))
  reprioritise t s c p l =
      let w1 = set_tcb n t w in
      let q1 : queued (w1.tcb n).state ≡ true = ground arith in
      Returns-mono
        (λ w'.
          (Valid idle w' × Changed w1 n (w1.tcb n).state w') × InBucket n (w1.tcb n).priority w')
        (Kept idle n w t) (λ w' r. moved t w' s r) (bq_reinsert n w1)
        (bq_reinsert-InBucket idle w1 n h i (set_tcb-Valid idle w n t v s c p (λ j. l)) q1)

  -- `set_prio` to a priority of the table that is not the idle one returns it; the thread has it as its
  -- priority and as the one that comes back after a promotion.
  pub set_prio-Prioritised :
      (p : ℕ)
      → p < 31
      → ReturnsWith
          (pos p)
          (λ w'. Prioritised idle n p w w' × ((w'.tcb n).old_priority ≡ p))
          (set_prio n (pos p) w)
  unfolding set_prio
  set_prio-Prioritised p l =
      let real : (n == 0) ≡ false = ground arith in
      let t = record (w.tcb n) { priority = p; old_priority = p } in
      rw real (
        with-value (pos p) (λ w'. Prioritised idle n p w w' × ((w'.tcb n).old_priority ≡ p))
          (bq_reinsert n (set_tcb n t w))
          (Returns-mono (Kept idle n w t)
            (λ w'. Prioritised idle n p w w' × ((w'.tcb n).old_priority ≡ p)) (λ w' k. (k.0, k.2))
            (bq_reinsert n (set_tcb n t w)) (reprioritise t refl refl (omega arith) (omega arith))))

  abbrev pub Locked : (gettid : ℕ) (m : Mutex) → Option (World × Mutex) → Type 0
  Locked gettid m none = ⊥
  Locked gettid m (some (w', m')) =
      Prioritised idle n (highest_priority - 1) w w'
      × ((w'.tcb n).mutex_count ≡ incr (w.tcb n).mutex_count)
      × ((w'.tcb n).old_priority ≡ (w.tcb n).old_priority)
      × (m' ≡ record m { owner_tid = gettid })

  counted :
      (gettid : ℕ) (m : Mutex) (o : Option World)
      → Returns (Kept idle n w (record (w.tcb n) { priority = highest_priority - 1 })) o
      → Locked gettid m (
          o >>= λ w'. some (
            set_tcb n (record (w'.tcb n) { mutex_count = incr (w'.tcb n).mutex_count }) w',
            record m { owner_tid = gettid },
          ))
  counted gettid m none r = elim r [ ]
  counted gettid m (some w') ((u, p, s, o, b), c, k) = (
    (
      set_tcb-Valid idle w' n _ u refl refl (u.priority_lem n) (u.below_idle n),
      ground (arith, p),
      ground (arith, s),
      (λ m j. ground (arith, o m j)),
      (ground (arith, b.0), b.1),
    ),
    ground (arith, c),
    ground (arith, k),
    refl,
  )

  -- After it has got the mutex, `lock_taken` of a thread that is ready or runs, and is not the idle one, gives
  -- the thread the priority before all others and puts it in the bucket of that priority, counts the mutex, and
  -- writes the owner; the invariant of the scheduler is kept, and the priority that comes back, the state of
  -- the thread and every other thread are as they were.
  pub lock_taken-Locked : (gettid : ℕ) (m : Mutex) → Locked gettid m (lock_taken n gettid w m)
  unfolding lock_taken
  lock_taken-Locked gettid m = counted gettid m _ (
      reprioritise (record (w.tcb n) { priority = highest_priority - 1 }) refl refl (omega arith)
        (omega arith))

module _ (idle n : ℕ) (h : n ≢ 0) (i : n ≢ idle) (w : World) (v : Valid idle w)
    (r : (w.tcb n).state ≡ running) (c : (w.tcb n).mutex_count ≡ pos 1)
    (p : (w.tcb n).old_priority < 31) where
  abbrev Given : World → Type 0
  Given w' = Prioritised idle n (w.tcb n).old_priority w w' × ((w'.tcb n).mutex_count ≡ pos 0)

  -- The owner has no mutex left.
  abbrev counted_down : World
  counted_down = set_tcb n (record (w.tcb n) { mutex_count = decr (w.tcb n).mutex_count }) w

  counted-Given :
      (w' : World)
      → Kept idle n counted_down
          (record (counted_down.tcb n) { priority = (counted_down.tcb n).old_priority })
          w'
      → Given w'
  counted-Given w' ((u, q, s, o, b), k, l) =
      let old : (counted_down.tcb n).old_priority ≡ (w.tcb n).old_priority = ground arith in
      (
        (
          u,
          ground (arith, q),
          ground (arith, s),
          (λ m j. ground (arith, o m j)),
          subst (λ p. InBucket n p w') old b,
        ),
        ground (arith, k, c),
      )

  give_back-Given : Returns Given (give_back n w)
  unfolding give_back
  give_back-Given =
      let w1 = counted_down in
      let v1 : Valid idle w1 =
        set_tcb-Valid idle w n _ v refl refl (v.priority_lem n) (v.below_idle n) in
      let none_left : (is_zero (w1.tcb n).mutex_count && same_state (w1.tcb n).state running)
          ≡ true =
        ground (arith, c, r) in
      let q : queued (w1.tcb n).state ≡ true = ground (arith, r) in
      let old : (w1.tcb n).old_priority < 31 = ground (arith, p) in
      let t = record (w1.tcb n) { priority = (w1.tcb n).old_priority } in
      rw none_left (
        Returns-mono (Kept idle n w1 t) Given counted-Given (bq_reinsert n (set_tcb n t w1))
          (reprioritise idle n h i w1 v1 q t refl refl (omega arith) (omega arith)))

  abbrev pub Unlocked : Option (World × Mutex × ℤ) → Type 0
  Unlocked none = ⊥
  Unlocked (some (w', m', z)) =
      Prioritised idle n (w.tcb n).old_priority w w'
      × ((w'.tcb n).mutex_count ≡ pos 0)
      × (m' ≡ record { futx = some up; owner_tid = 0 })
      × (z ≡ pos 0)

  given :
      (o : Option World)
      → Returns Given o
      → Unlocked (o >>= λ w. some (w, record { futx = some up; owner_tid = 0 }, pos 0))
  given none r = elim r [ ]
  given (some w') (u, k) = (u, k, refl, refl)

  owned :
      (gettid : ℕ) (m : Mutex)
      → m.owner_tid ≡ gettid
      → is_some m.futx ≡ true
      → search_tid gettid w.avl_root ≡ n
      → Unlocked (unlock_owned w m)
  unfolding unlock_owned
  owned gettid m g f a =
      let who : search_tid m.owner_tid w.avl_root ≡ n = ap (λ k. search_tid k w.avl_root) g ∙ a in
      let real : (n == 0) ≡ false = ground arith in
      rw (who, real, f) (given (give_back n w) give_back-Given)

  -- The owner's `unlock` of the last mutex that it holds, while it runs and is not the idle thread, returns 0
  -- and frees the mutex; the owner has its old priority again, which must be in the table and not the idle
  -- one, and is in the bucket of that priority; the invariant of the scheduler is kept, and every other
  -- thread is as it was.
  pub unlock-Unlocked :
      (gettid : ℕ) (m : Mutex)
      → m.owner_tid ≡ gettid
      → gettid ≢ 0
      → is_some m.futx ≡ true
      → search_tid gettid w.avl_root ≡ n
      → Unlocked (unlock true gettid w m)
  unfolding unlock
  unlock-Unlocked gettid m g z f a =
      let held : (m.owner_tid == 0) ≡ false = ground arith in
      let own : not (m.owner_tid == gettid) ≡ false = ground arith in
      rw (held, own) (owned gettid m g f a)
