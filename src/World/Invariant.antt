-- ===== src/World/Invariant.antt =====
-- Each thread stands in the queue of its state, and nowhere else.
use pthipth.Prelude.{
  ℕ, ◌≡◌, ◌≢◌, refl, ap, sym, subst, ◌∙◌, ==_iff, Bool, true, false, Option, none, some, List, [],
  ◌∷◌, ◌==◌, has, Distinct, arith,
}
use pthipth.Ready
use pthipth.Ready.{Ready, put, lowest, first, first_of}
use pthipth.Ready.Shown.{Shown, delete-bits, lowest-some, peek-ne-zero}
use pthipth.World.{
  ThreadState, ready, running, blocked, sleeping, defunct, same_state, World, is_some, bq_remove,
  bq_delete,
}

-- Ready and running threads are in the bucket queue.
abbrev pub queued : ThreadState → Bool
queued ready = true
queued running = true
queued _ = false

abbrev pub at_bucket : Option ℕ → ℕ → Bool
at_bucket none p = false
at_bucket (some q) p = q == p

pub record Consistent (w : World) : Type 0 where
  pub blocked_lem : (n : ℕ) → has n w.blocked_state ≡ same_state (w.tcb n).state blocked
  pub sleeping_lem : (n : ℕ) → has n w.sleeping_state ≡ same_state (w.tcb n).state sleeping
  pub bucket_lem : (n p : ℕ) → has n (w.ready_queue.bucket p) ≡ at_bucket (w.tcb n).cur_priority p
  pub queued_lem : (n : ℕ) → is_some (w.tcb n).cur_priority ≡ queued (w.tcb n).state
  pub blocked_Distinct : Distinct w.blocked_state
  pub sleeping_Distinct : Distinct w.sleeping_state
  pub bucket_Distinct : (p : ℕ) → Distinct (w.ready_queue.bucket p)
  pub shown : Shown w.ready_queue
  pub null_lem : (w.tcb 0).state ≡ defunct
  pub idle_shown : w.ready_queue.bits 31 ≡ true

module _ (w : World) (c : Consistent w) where
  pub real : (p : ℕ) → has 0 (w.ready_queue.bucket p) ≡ false
  real p = ground (arith, c.bucket_lem 0 p, c.queued_lem 0, c.null_lem)

  pub peek-real : Ready.peek w.ready_queue ≢ 0
  peek-real = peek-ne-zero w.ready_queue 31 c.shown real (omega arith) c.idle_shown

  -- A thread that is queued, in another bucket than the idle thread's, leaves the bucket queue.
  pub bq_delete-remove :
      (n p : ℕ) → (w.tcb n).cur_priority ≡ some p → p ≢ 31 → bq_delete n w ≡ some (bq_remove n p w)
  unfolding bq_delete
  bq_delete-remove n p e ne =
      let (a, f, on) =
        lowest-some (Ready.delete p n w.ready_queue).bits 31 (omega arith)
          (delete-bits p n 31 w.ready_queue ne c.idle_shown) in
      let busy : (Ready.peek w.ready_queue == 0) ≡ false = ground (arith, peek-real) in
      rw (busy, e, f)

pub has-first : (xs : List ℕ) → xs ≢ [] → has (first xs) xs ≡ true
has-first [] h = elim (h refl) [ ]
has-first (x ∷ xs) h = ground arith

-- The thread that the scheduler would take stands first in the lowest bucket that shows.
pub record Head (w : World) : Type 0 where
  pub priority : ℕ
  pub lowest_lem : lowest w.ready_queue.bits ≡ some priority
  pub peek_lem : Ready.peek w.ready_queue ≡ first (w.ready_queue.bucket priority)
  pub cur_lem : (w.tcb (Ready.peek w.ready_queue)).cur_priority ≡ some priority

some-bucket : (o : Option ℕ) (p : ℕ) → at_bucket o p ≡ true → o ≡ some p
some-bucket none p e = cc
some-bucket (some q) p e = ap some ((==_iff q p).0 e)

pub peek-Head : (w : World) → Consistent w → Head w
unfolding Ready.peek
peek-Head w c =
    let (a, e, on) = lowest-some w.ready_queue.bits 31 (omega arith) c.idle_shown in
    let f : Ready.peek w.ready_queue ≡ first (w.ready_queue.bucket a) =
      ap (first_of w.ready_queue.bucket) e in
    let there : has (Ready.peek w.ready_queue) (w.ready_queue.bucket a) ≡ true =
      subst (λ n. has n (w.ready_queue.bucket a) ≡ true) (sym f)
        (has-first (w.ready_queue.bucket a) (c.shown a on)) in
    record {
      priority = a;
      lowest_lem = e;
      peek_lem = f;
      cur_lem = some-bucket _ a (sym (c.bucket_lem (Ready.peek w.ready_queue) a) ∙ there);
    }
