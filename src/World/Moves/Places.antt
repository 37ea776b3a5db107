-- ===== src/World/Moves/Places.antt =====
-- How a thread leaves the bucket queue, comes into it, or stays in its place.
use pthipth.Prelude.{
  ℕ, ◌<◌, ◌≡◌, ◌≢◌, refl, true, false, none, some, List, [], ◌∷◌, ◌==◌, has, arith, has-append,
  has-erase, erase-Distinct, append-Distinct, lt→ltb, inl, inr, ◌>>=◌,
}
use pthipth.Ready
use pthipth.Ready.{Ready, put, buckets_count}
use pthipth.Ready.Shown.{insert-Shown, delete-Shown, insert-bits, delete-bits}
use pthipth.World.{
  ThreadState, ready, running, blocked, sleeping, defunct, same_state, World, bq_insert, bq_remove,
  bq_delete, enter, set_state,
}
use pthipth.World.Invariant.{Consistent, queued, at_bucket, bq_delete-remove, peek-real}
use pthipth.World.Moves.{
  Now, Now-append, appended, Now-same, Moves, queued-blocked, queued-sleeping, Returns,
}

module _ (w : World) (n : ℕ) (h : n ≢ 0) (c : Consistent w) where
  pub remove-bucket :
      (p : ℕ)
      → (w.tcb n).cur_priority ≡ some p
      → (q : ℕ) → Now n false (w.ready_queue.bucket q) ((Ready.delete p n w.ready_queue).bucket q)
  unfolding Ready.delete
  remove-bucket p e q = (
    (λ m. ground (
      arith,
      has-erase m n (w.ready_queue.bucket p) (c.bucket_Distinct p),
      c.bucket_lem n q,
      c.bucket_lem m p,
    )),
    ground (
      arith,
      c.bucket_Distinct q,
      erase-Distinct n (w.ready_queue.bucket p) (c.bucket_Distinct p),
    ),
  )

  pub insert-bucket :
      (p : ℕ)
      → (w.tcb n).cur_priority ≡ none
      → (q : ℕ)
      → Now n (p == q) (w.ready_queue.bucket q) ((Ready.insert p n w.ready_queue).bucket q)
  unfolding Ready.insert
  insert-bucket p e q = (
    (λ m. ground (
      arith,
      has-append m (w.ready_queue.bucket p) (n ∷ []),
      c.bucket_lem n q,
      c.bucket_lem m p,
    )),
    ground
        (arith, c.bucket_Distinct q, c.bucket_lem n p, append-Distinct n (w.ready_queue.bucket p)),
  )

  pub same-bucket :
      (q : ℕ)
      → Now n (at_bucket (w.tcb n).cur_priority q) (w.ready_queue.bucket q) (w.ready_queue.bucket q)
  same-bucket q = Now-same n _ (w.ready_queue.bucket q) (c.bucket_lem n q) (c.bucket_Distinct q)

  pub blocked-out : queued (w.tcb n).state ≡ true → has n w.blocked_state ≡ false
  blocked-out q = ground (arith, c.blocked_lem n)

  pub sleeping-out : queued (w.tcb n).state ≡ true → has n w.sleeping_state ≡ false
  sleeping-out q = ground (arith, c.sleeping_lem n)

  pub not-running : (w.tcb n).cur_priority ≡ none → same_state (w.tcb n).state running ≡ false
  not-running e = ground (arith, c.queued_lem n)

  pub idle-bucket : (w.tcb n).cur_priority ≡ none → (q : ℕ) → has n (w.ready_queue.bucket q) ≡ false
  idle-bucket e q = ground (arith, c.bucket_lem n q)

  pub bq_delete-same :
      (bs ss : List ℕ)
      → (w.tcb n).cur_priority ≡ none
      → bq_delete n (record w { blocked_state = bs; sleeping_state = ss })
        ≡ some (record w { blocked_state = bs; sleeping_state = ss })
  unfolding bq_delete
  bq_delete-same bs ss e =
      let busy : (Ready.peek w.ready_queue == 0) ≡ false = ground (arith, peek-real w c) in
      rw (busy, e) refl

  -- The bucket queue lets go of the thread.
  pub from_queue :
      (s : ThreadState) (p : ℕ)
      → (w.tcb n).cur_priority ≡ some p
      → p ≢ 31
      → has n w.blocked_state ≡ false
      → has n w.sleeping_state ≡ false
      → queued s ≡ false
      → Returns (Moves w n s) (enter n s w >>= λ w'. some (set_state n s w'))
  unfolding enter set_state bq_remove
  from_queue blocked p e ne a b q = rw (bq_delete-remove w c n p e ne) (record {
    cur = none;
    cur_lem = λ i. inl cc;
    tcb_lem = λ m. ground arith;
    blocked_lem = Now-append n w.blocked_state a c.blocked_Distinct;
    sleeping_lem = Now-same n false w.sleeping_state b c.sleeping_Distinct;
    bucket_lem = remove-bucket p e;
    queued_lem = refl;
    shown = delete-Shown p n w.ready_queue c.shown;
    idle_shown = delete-bits p n 31 w.ready_queue ne c.idle_shown;
  })
  from_queue sleeping p e ne a b q = rw (bq_delete-remove w c n p e ne) (record {
    cur = none;
    cur_lem = λ i. inl cc;
    tcb_lem = λ m. ground arith;
    blocked_lem = Now-same n false w.blocked_state a c.blocked_Distinct;
    sleeping_lem = Now-append n w.sleeping_state b c.sleeping_Distinct;
    bucket_lem = remove-bucket p e;
    queued_lem = refl;
    shown = delete-Shown p n w.ready_queue c.shown;
    idle_shown = delete-bits p n 31 w.ready_queue ne c.idle_shown;
  })
  from_queue defunct p e ne a b q = rw (bq_delete-remove w c n p e ne) (record {
    cur = none;
    cur_lem = λ i. inl cc;
    tcb_lem = λ m. ground arith;
    blocked_lem = Now-same n false w.blocked_state a c.blocked_Distinct;
    sleeping_lem = Now-same n false w.sleeping_state b c.sleeping_Distinct;
    bucket_lem = remove-bucket p e;
    queued_lem = refl;
    shown = delete-Shown p n w.ready_queue c.shown;
    idle_shown = delete-bits p n 31 w.ready_queue ne c.idle_shown;
  })
  from_queue ready p e ne a b q = cc
  from_queue running p e ne a b q = cc

  -- A thread outside the bucket queue, which has left the queue of its old state.
  module _ (bs ss : List ℕ) (a : Now n false w.blocked_state bs)
      (b : Now n false w.sleeping_state ss) where
    pub from_elsewhere :
        (s : ThreadState)
        → (w.tcb n).cur_priority ≡ none
        → (s ≡ ready → (w.tcb n).priority < buckets_count)
        → s ≢ running
        → Returns (Moves w n s) (
            enter n s (record w { blocked_state = bs; sleeping_state = ss }) >>= λ w'.
            some (set_state n s w'))
    unfolding enter set_state bq_insert
    from_elsewhere blocked e p r = rw (bq_delete-same bs ss e) (record {
      cur = none;
      cur_lem = λ i. inl cc;
      tcb_lem = λ m. ground arith;
      blocked_lem = appended n w.blocked_state bs a;
      sleeping_lem = b;
      bucket_lem =
          λ q. Now-same n false (w.ready_queue.bucket q) (idle-bucket e q) (c.bucket_Distinct q);
      queued_lem = refl;
      shown = c.shown;
      idle_shown = c.idle_shown;
    })
    from_elsewhere sleeping e p r = rw (bq_delete-same bs ss e) (record {
      cur = none;
      cur_lem = λ i. inl cc;
      tcb_lem = λ m. ground arith;
      blocked_lem = a;
      sleeping_lem = appended n w.sleeping_state ss b;
      bucket_lem =
          λ q. Now-same n false (w.ready_queue.bucket q) (idle-bucket e q) (c.bucket_Distinct q);
      queued_lem = refl;
      shown = c.shown;
      idle_shown = c.idle_shown;
    })
    from_elsewhere defunct e p r = rw (bq_delete-same bs ss e) (record {
      cur = none;
      cur_lem = λ i. inl cc;
      tcb_lem = λ m. ground arith;
      blocked_lem = a;
      sleeping_lem = b;
      bucket_lem =
          λ q. Now-same n false (w.ready_queue.bucket q) (idle-bucket e q) (c.bucket_Distinct q);
      queued_lem = refl;
      shown = c.shown;
      idle_shown = c.idle_shown;
    })
    from_elsewhere ready e p r =
        rw (not-running e, lt→ltb (w.tcb n).priority buckets_count (p refl))
          (record {
            cur = some (w.tcb n).priority;
            cur_lem = λ i. inr cc;
            tcb_lem = λ m. ground arith;
            blocked_lem = a;
            sleeping_lem = b;
            bucket_lem = insert-bucket (w.tcb n).priority e;
            queued_lem = refl;
            shown = insert-Shown (w.tcb n).priority n w.ready_queue c.shown;
            idle_shown = insert-bits (w.tcb n).priority n 31 w.ready_queue c.idle_shown;
          })
    from_elsewhere running e p r = elim (r refl) [ ]

  -- A thread that only runs, or only stops running, keeps its place.
  pub stays :
      (s : ThreadState)
      → queued (w.tcb n).state ≡ true
      → queued s ≡ true
      → Moves w n s (set_state n s w)
  unfolding set_state
  stays s o q = record {
    cur = (w.tcb n).cur_priority;
    cur_lem = inl;
    tcb_lem = λ m. ground arith;
    blocked_lem =
        Now-same n _ w.blocked_state
          (ground (arith, c.blocked_lem n, queued-blocked s q, queued-blocked (w.tcb n).state o))
          c.blocked_Distinct;
    sleeping_lem =
        Now-same n _ w.sleeping_state
          (ground (arith, c.sleeping_lem n, queued-sleeping s q, queued-sleeping (w.tcb n).state o))
          c.sleeping_Distinct;
    bucket_lem = same-bucket;
    queued_lem = ground (arith, c.queued_lem n);
    shown = c.shown;
    idle_shown = c.idle_shown;
  }
