-- ===== src/Store/Shows.antt =====
-- When the pointers hold a state of World.
use pthipth.Prelude.{
  ℕ, ◌≡◌, ap, ◌∙◌, true, false, Bool-cases, inl, inr, List, [], ◌∷◌, ◌==◌, arith, has, has-append,
}
use pthipth.Links.{Chain-frame}
use pthipth.World.{World}
use pthipth.Queue.{Queue}
use pthipth.Queue.Represents as QueueView
use pthipth.Queue.Represents.{SameLinks, forward, backward}
use pthipth.Bq.Represents as BqView
use pthipth.Store.{Ends, Store, queue_at, with_links}

pub record Shows (s : Store) (w : World) : Type 0 where
  pub bq_lem : BqView.Represents s.bq w.ready_queue
  pub keyed_lem : BqView.Keyed s.bq w.ready_queue
  pub priority_lem : (n : ℕ) → s.bq.priority n ≡ (w.tcb n).priority
  pub cur_lem : (n : ℕ) → s.bq.cur_priority n ≡ (w.tcb n).cur_priority
  pub state_lem : (n : ℕ) → s.state n ≡ (w.tcb n).state
  pub blocked_lem : QueueView.Represents (queue_at s.blocked_state s) w.blocked_state
  pub sleeping_lem : QueueView.Represents (queue_at s.sleeping_state s) w.sleeping_state
  pub defunct_lem : QueueView.Represents (queue_at s.defunct_state s) w.defunct_state

-- A queue is not touched by an operation on another one that has none of its nodes.
pub Represents-frame :
    (e : Ends) (s : Store) (q' : Queue) (n : ℕ) (xs ys : List ℕ) (q : Queue)
    → q.prev2 ≡ s.prev2
    → q.next2 ≡ s.next2
    → SameLinks q q' n xs
    → ((m : ℕ) → has m ys ≡ true → has m (n ∷ xs) ≡ false)
    → QueueView.Represents (queue_at e s) ys
    → QueueView.Represents (queue_at e (with_links q' s)) ys
Represents-frame e s q' n xs ys q a b f out r = record {
  chain =
      Chain-frame (forward (queue_at e s)) (backward (queue_at e s))
        (forward (queue_at e (with_links q' s))) (backward (queue_at e (with_links q' s))) 0 ys 0
        r.chain
        (λ p h. elim (Bool-cases (p == 0)) [
          | inl z ↦ ground arith
          | inr z ↦ ground (arith, same p z (ground arith))
        ])
        (λ p h. elim (Bool-cases (p == 0)) [
          | inl z ↦ ground arith
          | inr z ↦ ground (arith, same p z (ground (arith, has-append p ys (0 ∷ []))))
        ]);
  distinct = r.distinct;
  distinct_end = r.distinct_end;
}
  where
    same :
        (p : ℕ)
        → (p == 0) ≡ false
        → has p ys ≡ true
        → (q'.next2 p ≡ s.next2 p) × (q'.prev2 p ≡ s.prev2 p)
    same p z h =
        let k = out p h in
        let l = f p (ground arith) in (l.0 ∙ ap (λ g. g p) b, l.1 ∙ ap (λ g. g p) a)
