-- ===== src/Yield/Scheduler.antt =====
-- The scheduler of src/pthipth_yield.c.
use pthipth.Prelude.{
  ℕ, ◌<◌, ◌≡◌, ◌≢◌, refl, ap, sym, subst, ◌∙◌, inl, inr, true, false, some, List, [], ◌∷◌, ◌==◌,
  arith, Bool-cases, has, has-append, Distinct, append-Distinct, if◌then◌else◌,
}
use pthipth.Ready
use pthipth.Ready.{Ready, first, lowest, rotate_list, rotate_at, buckets_count}
use pthipth.Ready.Lowest.{Lowest, lowest-Lowest}
use pthipth.World.{World}
use pthipth.World.Invariant.{Consistent, queued, peek-Head, peek-real}
use pthipth.World.Valid.{Valid}
use pthipth.Yield.{scheduler}

has-rotate : (m : ℕ) (xs : List ℕ) → has m (rotate_list xs) ≡ has m xs
has-rotate m [] = refl
has-rotate m (x ∷ xs) = ground (arith, has-append m xs (x ∷ []))

rotate-Distinct : (xs : List ℕ) → Distinct xs → Distinct (rotate_list xs)
rotate-Distinct [] d = d
rotate-Distinct (x ∷ xs) d = append-Distinct x xs d.0 d.1

rotate-nil : (xs : List ℕ) → xs ≢ [] → rotate_list xs ≢ []
rotate-nil [] h = h
rotate-nil (x ∷ []) h = λ e. cc
rotate-nil (x ∷ y ∷ xs) h = λ e. cc

module _ (w : World) (c : Consistent w) (a : ℕ) where
  rotate-Consistent : Consistent (record w { ready_queue = rotate_at w.ready_queue (some a) })
  rotate-Consistent = record {
    blocked_lem = c.blocked_lem;
    sleeping_lem = c.sleeping_lem;
    bucket_lem = λ n p. ground (arith, has-rotate n (w.ready_queue.bucket a), c.bucket_lem n p);
    queued_lem = c.queued_lem;
    blocked_Distinct = c.blocked_Distinct;
    sleeping_Distinct = c.sleeping_Distinct;
    bucket_Distinct =
        λ p. ground (arith, rotate-Distinct (w.ready_queue.bucket a), c.bucket_Distinct p);
    shown = λ p h. ground (arith, c.shown p h, rotate-nil (w.ready_queue.bucket a));
    null_lem = c.null_lem;
    idle_shown = c.idle_shown;
  }

-- What the scheduler chooses: a thread that is in the bucket queue, in a bucket that shows, of which
-- there is none before.
pub record Chosen (w : World) (n : ℕ) : Type 0 where
  pub ne_null : n ≢ 0
  pub is_queued : queued (w.tcb n).state ≡ true
  pub priority : ℕ
  pub cur_lem : (w.tcb n).cur_priority ≡ some priority
  pub shows : w.ready_queue.bits priority ≡ true
  pub first_lem : (q : ℕ) → q < priority → w.ready_queue.bits q ≡ false

module _ (w : World) (c : Consistent w) where
  peek-Chosen : Chosen w (Ready.peek w.ready_queue)
  peek-Chosen =
      let h = peek-Head w c in
      let l : Lowest w.ready_queue.bits 0 buckets_count (some h.priority) =
        subst (Lowest w.ready_queue.bits 0 buckets_count) h.lowest_lem
          (lowest-Lowest w.ready_queue.bits) in
      record {
        ne_null = peek-real w c;
        is_queued = ground (arith, c.queued_lem (Ready.peek w.ready_queue), h.cur_lem);
        priority = h.priority;
        cur_lem = h.cur_lem;
        shows = l.2;
        first_lem = λ q i. l.3 q (omega arith) i;
      }

module _ (idle : ℕ) (w : World) (v : Valid idle w) (cur : ℕ) where
  rotate-Valid : Valid idle (record w { ready_queue = Ready.rotate w.ready_queue })
  unfolding Ready.rotate
  rotate-Valid = record {
    consistent =
        subst (λ o. Consistent (record w { ready_queue = rotate_at w.ready_queue o }))
          (sym (peek-Head w v.consistent).lowest_lem)
          (rotate-Consistent w v.consistent (peek-Head w v.consistent).priority);
    priority_lem = v.priority_lem;
    below_idle = v.below_idle;
    outside_idle = v.outside_idle;
  }

  rotate-bits : (Ready.rotate w.ready_queue).bits ≡ w.ready_queue.bits
  unfolding Ready.rotate
  rotate-bits = ap (λ o. (rotate_at w.ready_queue o).bits) (peek-Head w v.consistent).lowest_lem

  -- A choice before the rotation is one after it.
  rotate-Chosen :
      (n : ℕ) → Chosen w n → Chosen (record w { ready_queue = Ready.rotate w.ready_queue }) n
  rotate-Chosen n k = record {
    ne_null = k.ne_null;
    is_queued = k.is_queued;
    priority = k.priority;
    cur_lem = k.cur_lem;
    shows = ap (λ b. b k.priority) rotate-bits ∙ k.shows;
    first_lem = λ q i. ap (λ b. b q) rotate-bits ∙ k.first_lem q i;
  }

  -- The scheduler keeps the invariant and the threads, and chooses a thread of the first bucket that
  -- shows.
  pub scheduler-Chosen :
      Valid idle (scheduler cur w).0
      × Chosen (scheduler cur w).0 (scheduler cur w).1
      × ((n : ℕ) → (scheduler cur w).0.tcb n ≡ w.tcb n)
  unfolding scheduler
  scheduler-Chosen = (rotate-Valid, chosen, λ n. refl)
    where
      chosen :
          Chosen
            (record w { ready_queue = Ready.rotate w.ready_queue })
            (if cur == Ready.peek w.ready_queue
              then Ready.peek (Ready.rotate w.ready_queue)
              else Ready.peek w.ready_queue)
      chosen = elim (Bool-cases (cur == Ready.peek w.ready_queue)) [
        | inl e ↦ rw e (
            peek-Chosen (record w { ready_queue = Ready.rotate w.ready_queue })
              rotate-Valid.consistent)
        | inr e ↦ rw e (rotate-Chosen (Ready.peek w.ready_queue) (peek-Chosen w v.consistent))
      ]
