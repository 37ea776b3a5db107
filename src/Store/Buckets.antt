-- ===== src/Store/Buckets.antt =====
-- The bucket queue of the pointers follows that of World.
use pthipth.Prelude.{
  ℕ, ◌<◌, ◌≡◌, ◌≢◌, refl, sym, ap, subst, ◌∙◌, true, false, Bool-cases, inl, inr, Option, none,
  some, ◌==◌, ◌||◌, ◌>>=◌, arith, has, has-erase, ltb, ltb→lt,
}
use pthipth.Ready
use pthipth.Ready.{Ready, put, lowest, buckets_count}
use pthipth.Ready.Shown.{lowest-some}
use pthipth.World
use pthipth.World.{World, Tcb, is_some, bq_remove, bq_delete_at}
use pthipth.World.Invariant.{at_bucket}
use pthipth.Bq
use pthipth.Bq.{Bq}
use pthipth.Bq.Represents as BqView
use pthipth.Bq.Insert.{Inserted, insert-Represents}
use pthipth.Bq.Delete.{Deleted, delete-Represents, delete_unqueued}
use pthipth.Store
use pthipth.Store.{Store, queue_at}
use pthipth.Queue.Represents as QueueView
use pthipth.Store.Shows.{Shows}

-- Where the operation on the state returns, that on the pointers does, and the results are related.
abbrev pub Follows : (Store → World → Type 0) → Option Store → Option World → Type 0
Follows R o none = Unit
Follows R none (some w) = ⊥
Follows R (some s) (some w) = R s w

pub Follows-bind :
    (R Q : Store → World → Type 0) (f : Store → Option Store) (g : World → Option World)
    → ((s : Store) (w : World) → R s w → Follows Q (f s) (g w))
    → (o : Option Store) (p : Option World) → Follows R o p
    → Follows Q (o >>= f) (p >>= g)
Follows-bind R Q f g k o none r = tt
Follows-bind R Q f g k none (some w) r = elim r [ ]
Follows-bind R Q f g k (some s) (some w) r = k s w r

-- The state queues of the state are as they were.
abbrev pub SameQueues : World → World → Type 0
SameQueues w w' =
    (w'.blocked_state ≡ w.blocked_state)
    × (w'.sleeping_state ≡ w.sleeping_state)
    × (w'.defunct_state ≡ w.defunct_state)

-- The pointers hold the state, whose state queues are those of `w`.
abbrev pub ShowsQueues : World → Store → World → Type 0
ShowsQueues w s w' = Shows s w' × SameQueues w w'

module _ (n : ℕ) (s : Store) (w : World) (v : Shows s w) where
  -- The pointers after a change of the bucket queue alone.
  with_bq :
      (b : Bq) (w' : World)
      → BqView.Represents b w'.ready_queue
      → BqView.Keyed b w'.ready_queue
      → ((m : ℕ) → b.priority m ≡ (w'.tcb m).priority)
      → ((m : ℕ) → b.cur_priority m ≡ (w'.tcb m).cur_priority)
      → ((m : ℕ) → (w'.tcb m).state ≡ (w.tcb m).state)
      → SameQueues w w'
      → ShowsQueues w (record s { bq = b }) w'
  with_bq b w' r k p c t q = (
    record {
      bq_lem = r;
      keyed_lem = k;
      priority_lem = p;
      cur_lem = c;
      state_lem = λ m. v.state_lem m ∙ sym (t m);
      blocked_lem =
          subst (QueueView.Represents (queue_at s.blocked_state s)) (sym q.0) v.blocked_lem;
      sleeping_lem =
          subst (QueueView.Represents (queue_at s.sleeping_state s)) (sym q.1) v.sleeping_lem;
      defunct_lem =
          subst (QueueView.Represents (queue_at s.defunct_state s)) (sym q.2) v.defunct_lem;
    },
    q,
  )

  remove-Shows :
      (p : ℕ) (b : Bq)
      → Deleted s.bq w.ready_queue p n b
      → ShowsQueues w (record s { bq = b }) (bq_remove n p w)
  unfolding bq_remove Ready.delete
  remove-Shows p b d =
      with_bq b (bq_remove n p w) d.0
        (λ q m h.
          ap (λ f. f m) d.2
          ∙ v.keyed_lem q m
              (ground (arith, h, has-erase m n (w.ready_queue.bucket p) (v.bq_lem.distinct p).1)))
        (λ m. ap (λ f. f m) d.2 ∙ (ground (arith, v.priority_lem m)))
        (λ m. ap (λ f. f m) d.1 ∙ (ground (arith, v.cur_lem m))) (λ m. ground arith)
        (refl, refl, refl)

  -- A node of a bucket that shows, or of none, leaves the bucket queue.
  bq_delete_at-Follows :
      (o : Option ℕ)
      → (w.tcb n).cur_priority ≡ o
      → o ≢ some 31
      → w.ready_queue.bits 31 ≡ true
      → ((p : ℕ) → has n (w.ready_queue.bucket p) ≡ at_bucket o p)
      → Follows (ShowsQueues w) (Store.bq_delete n s) (bq_delete_at n o w)
  unfolding Store.bq_delete bq_delete_at
  bq_delete_at-Follows none e l i k =
      rw (delete_unqueued s.bq n (v.cur_lem n ∙ e)) (v, (refl, refl, refl))
  bq_delete_at-Follows (some p) e l i k =
      elim (Bool-cases (is_some (lowest (bq_remove n p w).ready_queue.bits))) [
        | inl a ↦
            let still : put w.ready_queue.bits p false 31 ≡ true = ground arith in
            let (a1, f, on) = lowest-some (put w.ready_queue.bits p false) 31 (omega arith) still in
            let here : has n (w.ready_queue.bucket p) ≡ true = ground (arith, k p) in
            rw a (
              removed (Bq.delete s.bq n)
                (delete-Represents s.bq w.ready_queue p n v.bq_lem here (a1, f)))
        | inr a ↦ rw a tt
      ]
    where
      removed :
          (m : Option Bq)
          → BqView.Returns (Deleted s.bq w.ready_queue p n) m
          → Follows (ShowsQueues w) (m >>= λ b. some (record s { bq = b })) (some (bq_remove n p w))
      removed none r = elim r [ ]
      removed (some b) r = remove-Shows p b r

  delete_headless : (s.bq.head == 0) ≡ true → Store.bq_delete n s ≡ some (record s { bq = s.bq })
  unfolding Store.bq_delete Bq.delete
  delete_headless e = let no : ((n == 0) || (s.bq.head == 0)) ≡ true = ground arith in rw no refl

  pub bq_delete-Follows :
      (w.tcb n).cur_priority ≢ some 31
      → w.ready_queue.bits 31 ≡ true
      → ((p : ℕ) → has n (w.ready_queue.bucket p) ≡ at_bucket (w.tcb n).cur_priority p)
      → Follows (ShowsQueues w) (Store.bq_delete n s) (World.bq_delete n w)
  unfolding World.bq_delete
  bq_delete-Follows l i k = elim (Bool-cases (Ready.peek w.ready_queue == 0)) [
    | inl e ↦ rw (e, delete_headless (ap (λ m. m == 0) v.bq_lem.head ∙ e)) (v, (refl, refl, refl))
    | inr e ↦ rw e (bq_delete_at-Follows (w.tcb n).cur_priority refl l i k)
  ]

  abbrev placed : World
  placed =
      let p = (w.tcb n).priority in
      record (World.set_tcb n (record (w.tcb n) { cur_priority = some p }) w) {
        ready_queue = Ready.insert p n w.ready_queue;
      }

  -- A node that is in no bucket goes to the end of the bucket of its priority.
  pub bq_insert-Follows :
      n ≢ 0
      → ((p : ℕ) → has n (w.ready_queue.bucket p) ≡ false)
      → Follows (ShowsQueues w) (Store.bq_insert n s) (World.bq_insert n w)
  unfolding Store.bq_insert World.bq_insert
  bq_insert-Follows h out = elim (Bool-cases (ltb (w.tcb n).priority buckets_count)) [
    | inr e ↦ rw e tt
    | inl e ↦
        let p = s.bq.priority n in
        let same = v.priority_lem n in
        let small : s.bq.priority n < buckets_count =
          subst (λ p. p < buckets_count) (sym same) (ltb→lt (w.tcb n).priority buckets_count e) in
        rw e (
          inserted (Bq.insert s.bq n)
            (insert-Represents s.bq w.ready_queue n v.bq_lem v.keyed_lem h out small))
  ]
    where
      inserted :
          (m : Option Bq)
          → BqView.Returns (Inserted s.bq w.ready_queue n) m
          → Follows (ShowsQueues w) (m >>= λ b. some (record s { bq = b })) (some placed)
      inserted none r = elim r [ ]
      inserted (some b) (r, k, c, p) =
          let e = v.priority_lem n in
          with_bq b placed (subst (λ q. BqView.Represents b (Ready.insert q n w.ready_queue)) e r)
            (subst (λ q. BqView.Keyed b (Ready.insert q n w.ready_queue)) e k)
            (λ m. ap (λ f. f m) p ∙ (ground (arith, v.priority_lem m)))
            (λ m. ap (λ f. f m) c ∙ (ground (arith, v.cur_lem m, e))) (λ m. ground arith)
            (refl, refl, refl)
