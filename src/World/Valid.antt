-- ===== src/World/Valid.antt =====
-- The invariant of the scheduler: queues that agree with the states, and priorities inside the table,
-- of which only the idle thread has the last one.
use mathlib.Core.List.{List}
use pthipth.Avl.{Tree}
use pthipth.Prelude.{ℕ, ◌<◌, ◌≡◌, ◌≢◌, subst, inl, inr, true, Option, some, arith, Bool-cases}
use pthipth.Ready.{put, buckets_count}
use pthipth.World.{ThreadState, same_state, Tcb, World, change_to_state, set_tcb}
use pthipth.World.Invariant.{Consistent}
use pthipth.World.Moves.{Moves, Moves-Consistent, Returns, Returns-mono, same_state-eq}
use pthipth.World.State.{Allowed, change_to_state-Moves}

pub record Valid (idle : ℕ) (w : World) : Type 0 where
  pub consistent : Consistent w
  pub priority_lem : (n : ℕ) → (w.tcb n).priority < buckets_count
  pub below_idle : (n : ℕ) → n ≢ idle → (w.tcb n).priority ≢ 31
  pub outside_idle : (n : ℕ) → n ≢ idle → (w.tcb n).cur_priority ≢ some 31

-- The thread is in the state, and nothing else changed but its place in the bucket queue.
pub record Changed (w : World) (n : ℕ) (s : ThreadState) (w' : World) : Type 0 where
  pub cur : Option ℕ
  pub tcb_lem :
      (m : ℕ) → w'.tcb m ≡ put w.tcb n (record (w.tcb n) { state = s; cur_priority = cur }) m

module _ (w : World) (n : ℕ) (s : ThreadState) (w' : World) (c : Changed w n s w') where
  pub Changed-self : w'.tcb n ≡ record (w.tcb n) { state = s; cur_priority = c.cur }
  Changed-self = ground (arith, c.tcb_lem n)

  pub Changed-other : (m : ℕ) → m ≢ n → w'.tcb m ≡ w.tcb m
  Changed-other m h = ground (arith, c.tcb_lem m)

put-same {ℓ} : {A : Type ℓ} (f : ℕ → A) (n k : ℕ) → f k ≡ put f n (f n) k
put-same f n k = ground arith

module _ (idle : ℕ) (w : World) (n : ℕ) (h : n ≢ 0) (v : Valid idle w) where
  cur_outside : (w' : World) (s : ThreadState) (m : Moves w n s w') → n ≢ idle → m.cur ≢ some 31
  cur_outside w' s m i q = elim (m.cur_lem q) [
    | inl e ↦ v.outside_idle n i e
    | inr e ↦ v.below_idle n i e
  ]

  pub Moves-Valid :
      (s : ThreadState) (w' : World) → Moves w n s w' → Valid idle w' × Changed w n s w'
  Moves-Valid s w' m = (
    record {
      consistent = (Moves-Consistent w n s w' h v.consistent m).0;
      priority_lem = λ k. ground (arith, m.tcb_lem k, v.priority_lem k, v.priority_lem n);
      below_idle = λ k i. ground (arith, m.tcb_lem k, v.below_idle k i, v.below_idle n);
      outside_idle = λ k i q. ground (arith, m.tcb_lem k, cur_outside w' s m, v.outside_idle k i);
    },
    record { cur = m.cur; tcb_lem = m.tcb_lem },
  )

  unchanged : (s : ThreadState) → same_state (w.tcb n).state s ≡ true → Changed w n s w
  unchanged s e = record {
    cur = (w.tcb n).cur_priority;
    tcb_lem = λ k.
        subst (λ s. w.tcb k ≡ put w.tcb n (record (w.tcb n) { state = s }) k)
          (same_state-eq (w.tcb n).state s e) (put-same w.tcb n k);
  }

  -- `change_to_state` keeps the scheduler's invariant and changes nothing else.
  pub change_to_state-Valid :
      (s : ThreadState)
      → Allowed w n s
      → Returns (λ w'. Valid idle w' × Changed w n s w') (change_to_state n s w)
  unfolding change_to_state
  change_to_state-Valid s a = elim (Bool-cases (same_state (w.tcb n).state s)) [
    | inl e ↦ rw e (v, unchanged s e)
    | inr e ↦ Returns-mono _ _ (Moves-Valid s) _ (change_to_state-Moves w n h v.consistent s e a)
  ]

-- A write to the fields that place the thread nowhere.
module _ (idle : ℕ) (w : World) (n : ℕ) (t : Tcb) (v : Valid idle w) where
  pub set_tcb-Valid :
      t.state ≡ (w.tcb n).state
      → t.cur_priority ≡ (w.tcb n).cur_priority
      → t.priority < buckets_count
      → (n ≢ idle → t.priority ≢ 31)
      → Valid idle (set_tcb n t w)
  set_tcb-Valid s c p i = record {
    consistent = record {
      blocked_lem = λ m. ground (arith, v.consistent.blocked_lem m);
      sleeping_lem = λ m. ground (arith, v.consistent.sleeping_lem m);
      bucket_lem = λ m q. ground (arith, v.consistent.bucket_lem m q);
      queued_lem = λ m. ground (arith, v.consistent.queued_lem m);
      blocked_Distinct = v.consistent.blocked_Distinct;
      sleeping_Distinct = v.consistent.sleeping_Distinct;
      bucket_Distinct = v.consistent.bucket_Distinct;
      shown = v.consistent.shown;
      null_lem = ground (arith, v.consistent.null_lem);
      idle_shown = v.consistent.idle_shown;
    };
    priority_lem = λ k. ground (arith, v.priority_lem k);
    below_idle = λ k o. ground (arith, v.below_idle k o, i);
    outside_idle = λ k o. ground (arith, v.outside_idle k o);
  }

-- The invariant says nothing of the tree, the detached threads and the current one.
pub rest-Valid :
    (idle : ℕ) (w : World) (t : Tree) (ds : List ℕ) (n : ℕ)
    → Valid idle w
    → Valid idle (record w { avl_root = t; defunct_state = ds; current = n })
rest-Valid idle w t ds n v = record {
  consistent = record {
    blocked_lem = v.consistent.blocked_lem;
    sleeping_lem = v.consistent.sleeping_lem;
    bucket_lem = v.consistent.bucket_lem;
    queued_lem = v.consistent.queued_lem;
    blocked_Distinct = v.consistent.blocked_Distinct;
    sleeping_Distinct = v.consistent.sleeping_Distinct;
    bucket_Distinct = v.consistent.bucket_Distinct;
    shown = v.consistent.shown;
    null_lem = v.consistent.null_lem;
    idle_shown = v.consistent.idle_shown;
  };
  priority_lem = v.priority_lem;
  below_idle = v.below_idle;
  outside_idle = v.outside_idle;
}
