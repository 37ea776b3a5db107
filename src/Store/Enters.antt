-- ===== src/Store/Enters.antt =====
-- The two halves of `__pthipth_change_to_state` of src/pthipth_utils.c, on the pointers and on the lists.
use pthipth.Prelude.{
  ℕ, ◌≡◌, ◌≢◌, refl, sym, ap, subst, ◌∙◌, true, false, Bool-cases, inl, inr, Option, none, some,
  ◌>>=◌, arith, has,
}
use pthipth.Ready.{Ready, put}
use pthipth.World
use pthipth.World.{
  ThreadState, ready, running, blocked, sleeping, defunct, same_state, Tcb, World, set_state,
}
use pthipth.World.Invariant.{Consistent, queued, at_bucket}
use pthipth.World.State.{Allowed}
use pthipth.Store
use pthipth.Store.{Store, queue_at, with_blocked, with_sleeping}
use pthipth.Store.Shows.{Shows}
use pthipth.Store.Buckets.{
  Follows, Follows-bind, SameQueues, ShowsQueues, bq_delete-Follows, bq_insert-Follows,
}
use pthipth.Store.Queues.{Disjoint, Apart, Absent, add_blocked, add_sleeping}

SameQueues-Apart : (w w' : World) → SameQueues w w' → Apart w → Apart w'
SameQueues-Apart w w' q a = (
  subst (λ xs. Disjoint xs w'.sleeping_state) (sym q.0)
      (subst (λ ys. Disjoint w.blocked_state ys) (sym q.1) a.0),
  subst (λ xs. Disjoint xs w'.defunct_state) (sym q.0)
      (subst (λ ys. Disjoint w.blocked_state ys) (sym q.2) a.1),
  subst (λ xs. Disjoint xs w'.defunct_state) (sym q.1)
      (subst (λ ys. Disjoint w.sleeping_state ys) (sym q.2) a.2),
)

SameQueues-Absent : (n : ℕ) (w w' : World) → SameQueues w w' → Absent n w → Absent n w'
SameQueues-Absent n w w' q o = (ap (has n) q.0 ∙ o.0, ap (has n) q.1 ∙ o.1, ap (has n) q.2 ∙ o.2)

-- What the second half needs of the thread, by the state that it goes to.
abbrev pub Fit : ℕ → ThreadState → Tcb → Ready → Type 0
Fit n ready t r = same_state t.state running ≡ false → (p : ℕ) → has n (r.bucket p) ≡ false
Fit n running t r = Unit
Fit n _ t r =
    (t.cur_priority ≢ some 31)
    × (r.bits 31 ≡ true)
    × ((p : ℕ) → has n (r.bucket p) ≡ at_bucket t.cur_priority p)

module _ (n : ℕ) (h : n ≢ 0) (s : Store) (w : World) (v : Shows s w) (a : Apart w) where
  forget_queues :
      (o : Option Store) (p : Option World) → Follows (ShowsQueues w) o p → Follows Shows o p
  forget_queues o none r = tt
  forget_queues none (some w') r = r
  forget_queues (some s') (some w') r = r.0

  enter-Follows :
      (t : ThreadState)
      → Absent n w
      → Fit n t (w.tcb n) w.ready_queue
      → Follows Shows (Store.enter n t s) (World.enter n t w)
  unfolding Store.enter World.enter
  enter-Follows blocked o f =
      Follows-bind (ShowsQueues w) Shows _ _
        (λ s' w' r.
          add_blocked n s' w' r.0 h (SameQueues-Apart w w' r.1 a) (SameQueues-Absent n w w' r.1 o))
        (Store.bq_delete n s) (World.bq_delete n w) (bq_delete-Follows n s w v f.0 f.1 f.2)
  enter-Follows sleeping o f =
      Follows-bind (ShowsQueues w) Shows _ _
        (λ s' w' r.
          add_sleeping n s' w' r.0 h (SameQueues-Apart w w' r.1 a) (SameQueues-Absent n w w' r.1 o))
        (Store.bq_delete n s) (World.bq_delete n w) (bq_delete-Follows n s w v f.0 f.1 f.2)
  enter-Follows defunct o f =
      forget_queues (Store.bq_delete n s) (World.bq_delete n w)
        (bq_delete-Follows n s w v f.0 f.1 f.2)
  enter-Follows running o f = v
  enter-Follows ready o f = elim (Bool-cases (same_state (w.tcb n).state running)) [
    | inl e ↦ rw (v.state_lem n, e) v
    | inr e ↦
        rw (v.state_lem n, e)
          (forget_queues (Store.bq_insert n s) (World.bq_insert n w)
            (bq_insert-Follows n s w v h (f e)))
  ]

  pub entered :
      (t : ThreadState)
      → Absent n w
      → Fit n t (w.tcb n) w.ready_queue
      → Follows Shows
          (Store.enter n t s >>= λ s. some (record s { state = put s.state n t }))
          (World.enter n t w >>= λ w. some (set_state n t w))
  unfolding set_state
  entered t o f =
      Follows-bind Shows Shows _ _
        (λ s' w' r. record {
          bq_lem = r.bq_lem;
          keyed_lem = r.keyed_lem;
          priority_lem = λ m. ground (arith, r.priority_lem m);
          cur_lem = λ m. ground (arith, r.cur_lem m);
          state_lem = λ m. ground (arith, r.state_lem m);
          blocked_lem = r.blocked_lem;
          sleeping_lem = r.sleeping_lem;
          defunct_lem = r.defunct_lem;
        })
        (Store.enter n t s) (World.enter n t w) (enter-Follows t o f)

not_queued :
    (o : ThreadState) → same_state o ready ≡ false → same_state o running ≡ false → queued o ≡ false
not_queued ready a b = a
not_queued running a b = b
not_queued blocked a b = refl
not_queued sleeping a b = refl
not_queued defunct a b = refl

module _ (n : ℕ) (w : World) (c : Consistent w) where
  pub fit :
      (t : ThreadState)
      → Allowed w n t
      → same_state (w.tcb n).state t ≡ false
      → Fit n t (w.tcb n) w.ready_queue
  fit ready l e = λ r p.
      let q = not_queued (w.tcb n).state e r in ground (arith, c.bucket_lem n p, c.queued_lem n, q)
  fit running l e = tt
  fit blocked l e = (l, c.idle_shown, λ p. c.bucket_lem n p)
  fit sleeping l e = (l, c.idle_shown, λ p. c.bucket_lem n p)
  fit defunct l e = (l, c.idle_shown, λ p. c.bucket_lem n p)
