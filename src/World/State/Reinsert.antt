-- ===== src/World/State/Reinsert.antt =====
-- `pthipth_bq_reinsert` of src/pthipth_bq.c: the thread goes to the end of the bucket of its priority.
use pthipth.Prelude.{
  Option, none, refl, ltb, ◌>>=◌, has, ℕ, ◌<◌, ◌≡◌, ◌≢◌, sym, ap, subst, ◌∙◌, inl, inr, true, some,
  ◌==◌, arith, ==_iff, Bool-cases, lt→ltb,
}
use pthipth.Ready
use pthipth.Ready.{Ready, put, buckets_count}
use pthipth.Ready.Shown.{insert-Shown, delete-Shown, insert-bits, delete-bits}
use pthipth.World.{World, is_some, bq_insert, bq_remove, bq_delete_at, bq_delete, bq_reinsert}
use pthipth.World.Frame.{Where, Returns-Where}
use pthipth.World.Invariant.{Consistent, queued, at_bucket, bq_delete-remove}
use pthipth.World.Moves.{Now, Now-same, appended, Moves, Returns, Returns-mono}
use pthipth.World.Moves.Places.{remove-bucket}
use pthipth.World.State.{cur-some}
use pthipth.World.Valid.{Valid, Changed, Moves-Valid}

module _ (w : World) (n : ℕ) (h : n ≢ 0) (c : Consistent w) where
  reinsert-bucket :
      (p p' : ℕ)
      → (w.tcb n).cur_priority ≡ some p
      → (q : ℕ)
      → Now n
          (p' == q)
          (w.ready_queue.bucket q)
          ((Ready.insert p' n (Ready.delete p n w.ready_queue)).bucket q)
  unfolding Ready.insert
  reinsert-bucket p p' e q = elim (Bool-cases (p' == q)) [
    | inl i ↦
        rw (i, (==_iff p' q).0 i)
          (appended n (w.ready_queue.bucket q) ((Ready.delete p n w.ready_queue).bucket q)
            (remove-bucket w n h c p e q))
    | inr i ↦ rw i (remove-bucket w n h c p e q)
  ]

  bq_reinsert-Moves :
      queued (w.tcb n).state ≡ true
      → (w.tcb n).cur_priority ≢ some 31
      → (w.tcb n).priority < buckets_count
      → Returns (Moves w n (w.tcb n).state) (bq_reinsert n w)
  unfolding bq_reinsert bq_insert bq_remove
  bq_reinsert-Moves o l b =
      let (p, e) = cur-some w n h c o in
      let p' = (w.tcb n).priority in
      let i : p ≢ 31 = λ i. l (e ∙ ap some i) in
      let p1 = ((bq_remove n p w).tcb n).priority in
      let same : p1 ≡ p' = ground arith in
      rw
        (
          bq_delete-remove w c n p e i,
          lt→ltb p1 buckets_count (subst (λ q. q < buckets_count) (sym same) b),
        )
        (record {
          cur = some p1;
          cur_lem = λ j. inr cc;
          tcb_lem = λ m. ground arith;
          blocked_lem = Now-same n _ w.blocked_state (c.blocked_lem n) c.blocked_Distinct;
          sleeping_lem = Now-same n _ w.sleeping_state (c.sleeping_lem n) c.sleeping_Distinct;
          bucket_lem = reinsert-bucket p p1 e;
          queued_lem = sym o;
          shown =
              insert-Shown p1 n (Ready.delete p n w.ready_queue)
                (delete-Shown p n w.ready_queue c.shown);
          idle_shown =
              insert-bits p1 n 31 (Ready.delete p n w.ready_queue)
                (delete-bits p n 31 w.ready_queue i c.idle_shown);
        })

-- `pthipth_bq_reinsert` of a thread that is ready or runs, and is not the idle one, keeps the invariant
-- of the scheduler, and changes nothing of the threads but where the thread stands.
pub bq_reinsert-Valid :
    (idle : ℕ) (w : World) (n : ℕ)
    → n ≢ 0
    → n ≢ idle
    → Valid idle w
    → queued (w.tcb n).state ≡ true
    → Returns (λ w'. Valid idle w' × Changed w n (w.tcb n).state w') (bq_reinsert n w)
bq_reinsert-Valid idle w n h i v o =
    Returns-mono (Moves w n (w.tcb n).state) (λ w'. Valid idle w' × Changed w n (w.tcb n).state w')
      (Moves-Valid idle w n h v (w.tcb n).state) (bq_reinsert n w)
      (bq_reinsert-Moves w n h v.consistent o (v.outside_idle n i) (v.priority_lem n))

-- The bucket that an insertion writes to the thread, and what a deletion leaves of its priority.
insert-cur :
    (n : ℕ) (w : World)
    → Where (λ w'. (w'.tcb n).cur_priority ≡ some (w.tcb n).priority) (bq_insert n w)
unfolding bq_insert
insert-cur n w = elim (Bool-cases (ltb (w.tcb n).priority buckets_count)) [
  | inl e ↦ rw e (ground arith)
  | inr e ↦ rw e tt
]

delete_at-priority :
    (n : ℕ) (w : World) (c : Option ℕ)
    → Where (λ w'. (w'.tcb n).priority ≡ (w.tcb n).priority) (bq_delete_at n c w)
unfolding bq_delete_at bq_remove
delete_at-priority n w none = refl
delete_at-priority n w (some p) =
    elim (Bool-cases (is_some (Ready.lowest (Ready.delete p n w.ready_queue).bits))) [
      | inl e ↦ rw e (ground arith)
      | inr e ↦ rw e tt
    ]

delete-priority :
    (n : ℕ) (w : World) → Where (λ w'. (w'.tcb n).priority ≡ (w.tcb n).priority) (bq_delete n w)
unfolding bq_delete
delete-priority n w = elim (Bool-cases (Ready.peek w.ready_queue == 0)) [
  | inl e ↦ rw e refl
  | inr e ↦ rw e (delete_at-priority n w (w.tcb n).cur_priority)
]

reinsert-cur :
    (n : ℕ) (w : World)
    → Where (λ w'. (w'.tcb n).cur_priority ≡ some (w.tcb n).priority) (bq_reinsert n w)
unfolding bq_reinsert
reinsert-cur n w = after (bq_delete n w) (delete-priority n w)
  where
    after :
        (o : Option World)
        → Where (λ w'. (w'.tcb n).priority ≡ (w.tcb n).priority) o
        → Where
            (λ w'. (w'.tcb n).cur_priority ≡ some (w.tcb n).priority)
            (o >>= λ w'. bq_insert n w')
    after none e = tt
    after (some w1) e =
        subst (λ p. Where (λ w'. (w'.tcb n).cur_priority ≡ some p) (bq_insert n w1)) e
          (insert-cur n w1)

-- The thread is in the bucket of the priority, and its control block says so.
abbrev pub InBucket : (n priority : ℕ) → World → Type 0
InBucket n priority w =
    ((w.tcb n).cur_priority ≡ some priority) × (has n (w.ready_queue.bucket priority) ≡ true)

-- The same, and the thread is in the bucket of its priority.
pub bq_reinsert-InBucket :
    (idle : ℕ) (w : World) (n : ℕ)
    → n ≢ 0
    → n ≢ idle
    → Valid idle w
    → queued (w.tcb n).state ≡ true
    → Returns
        (λ w'. (Valid idle w' × Changed w n (w.tcb n).state w') × InBucket n (w.tcb n).priority w')
        (bq_reinsert n w)
bq_reinsert-InBucket idle w n h i v o =
    Returns-mono
      (λ w'.
        (Valid idle w' × Changed w n (w.tcb n).state w')
        × ((w'.tcb n).cur_priority ≡ some (w.tcb n).priority))
      (λ w'. (Valid idle w' × Changed w n (w.tcb n).state w') × InBucket n (w.tcb n).priority w')
      (λ w' r. (
        r.0,
        (
          r.1,
          r.0.0.consistent.bucket_lem n (w.tcb n).priority
              ∙ ap (λ c. at_bucket c (w.tcb n).priority) r.1
              ∙ (==_iff (w.tcb n).priority (w.tcb n).priority).1 refl,
        ),
      ))
      (bq_reinsert n w)
      (Returns-Where (λ w'. Valid idle w' × Changed w n (w.tcb n).state w')
        (λ w'. (w'.tcb n).cur_priority ≡ some (w.tcb n).priority) (bq_reinsert n w)
        (bq_reinsert-Valid idle w n h i v o) (reinsert-cur n w))
