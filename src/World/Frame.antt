-- ===== src/World/Frame.antt =====
-- What the moves between the queues of src/pthipth_utils.c and src/pthipth_bq.c leave alone: the tree, the
-- queue of the detached threads, the current thread, and each thread but for where it stands.
use pthipth.Prelude.{
  ℕ, ◌≡◌, refl, ◌∙◌, Bool-cases, inl, inr, Option, none, some, List, [], ◌∷◌, ◌>>=◌, ◌==◌, arith,
  ltb,
}
use pthipth.Ready
use pthipth.Ready.{lowest, buckets_count}
use pthipth.World.{
  ThreadState, ready, running, blocked, sleeping, defunct, same_state, Tcb, World, is_some, set_tcb,
  bq_insert, bq_remove, bq_delete_at, bq_delete, bq_reinsert, leave, enter, set_state,
  change_to_state,
}
use pthipth.World.Moves.{Returns}
use pthipth.World.Each.{each}

-- A thread without its state and its priorities.
abbrev pub core : Tcb → Tcb
core t = record t {
  state = defunct;
  cur_priority = none;
  priority = 0;
  old_priority = 0;
  last_selected = 0;
}

abbrev pub Rest : World → World → Type 0
Rest w w' =
    (w'.avl_root ≡ w.avl_root)
    × (w'.defunct_state ≡ w.defunct_state)
    × (w'.current ≡ w.current)
    × ((m : ℕ) → core (w'.tcb m) ≡ core (w.tcb m))

-- What holds of the state where the code does not fault.
abbrev pub Where : (World → Type 0) → Option World → Type 0
Where P none = Unit
Where P (some w) = P w

pub Returns-Where :
    (P Q : World → Type 0) (o : Option World) → Returns P o → Where Q o → Returns (λ w. P w × Q w) o
Returns-Where P Q none r q = r
Returns-Where P Q (some w) r q = (r, q)

pub Rest-self : (w : World) → Rest w w
Rest-self w = (refl, refl, refl, λ m. refl)

pub Rest-trans : (w w' w'' : World) → Rest w w' → Rest w' w'' → Rest w w''
Rest-trans w w' w'' a b = (b.0 ∙ a.0, b.1 ∙ a.1, b.2 ∙ a.2, λ m. b.3 m ∙ a.3 m)

pub Rest-bind :
    (w : World) (f : World → Option World) (o : Option World)
    → Where (Rest w) o
    → ((w' : World) → Where (Rest w') (f w'))
    → Where (Rest w) (o >>= f)
Rest-bind w f none r k = tt
Rest-bind w f (some w') r k = on (f w') (k w')
  where
    on : (o : Option World) → Where (Rest w') o → Where (Rest w) o
    on none q = tt
    on (some w'') q = Rest-trans w w' w'' r q

-- A write to a thread that leaves its core.
pub set_tcb-Rest : (n : ℕ) (t : Tcb) (w : World) → core t ≡ core (w.tcb n) → Rest w (set_tcb n t w)
set_tcb-Rest n t w e = (refl, refl, refl, λ m. ground arith)

module _ (n : ℕ) where
  bq_insert-Rest : (w : World) → Where (Rest w) (bq_insert n w)
  unfolding bq_insert
  bq_insert-Rest w = elim (Bool-cases (ltb (w.tcb n).priority buckets_count)) [
    | inl e ↦ rw e (refl, refl, refl, λ m. ground arith)
    | inr e ↦ rw e tt
  ]

  bq_delete_at-Rest : (p : Option ℕ) (w : World) → Where (Rest w) (bq_delete_at n p w)
  unfolding bq_delete_at bq_remove
  bq_delete_at-Rest none w = Rest-self w
  bq_delete_at-Rest (some p) w =
      elim (Bool-cases (is_some (lowest (bq_remove n p w).ready_queue.bits))) [
        | inl e ↦ rw e (refl, refl, refl, λ m. ground arith)
        | inr e ↦ rw e tt
      ]

  bq_delete-Rest : (w : World) → Where (Rest w) (bq_delete n w)
  unfolding bq_delete
  bq_delete-Rest w = elim (Bool-cases (Ready.peek w.ready_queue == 0)) [
    | inl e ↦ rw e (Rest-self w)
    | inr e ↦ rw e (bq_delete_at-Rest (w.tcb n).cur_priority w)
  ]

  pub bq_reinsert-Rest : (w : World) → Where (Rest w) (bq_reinsert n w)
  unfolding bq_reinsert
  bq_reinsert-Rest w = Rest-bind w (bq_insert n) (bq_delete n w) (bq_delete-Rest w) bq_insert-Rest

  leave-Rest : (s : ThreadState) (w : World) → Rest w (leave n s w)
  unfolding leave
  leave-Rest blocked w = Rest-self w
  leave-Rest sleeping w = Rest-self w
  leave-Rest ready w = Rest-self w
  leave-Rest running w = Rest-self w
  leave-Rest defunct w = Rest-self w

  enter-Rest : (s : ThreadState) (w : World) → Where (Rest w) (enter n s w)
  unfolding enter
  enter-Rest blocked w =
      Rest-bind w _ (bq_delete n w) (bq_delete-Rest w) (λ w'. (refl, refl, refl, λ m. refl))
  enter-Rest sleeping w =
      Rest-bind w _ (bq_delete n w) (bq_delete-Rest w) (λ w'. (refl, refl, refl, λ m. refl))
  enter-Rest ready w = elim (Bool-cases (same_state (w.tcb n).state running)) [
    | inl e ↦ rw e (Rest-self w)
    | inr e ↦ rw e (bq_insert-Rest w)
  ]
  enter-Rest defunct w = bq_delete-Rest w
  enter-Rest running w = Rest-self w

  pub change_to_state-Rest : (s : ThreadState) (w : World) → Where (Rest w) (change_to_state n s w)
  unfolding change_to_state set_state
  change_to_state-Rest s w = elim (Bool-cases (same_state (w.tcb n).state s)) [
    | inl e ↦ rw e (Rest-self w)
    | inr e ↦
        let w1 = leave n (w.tcb n).state w in
        rw e (
          Rest-bind w (λ w. enter n s w >>= λ w. some (set_state n s w)) (some w1)
            (leave-Rest (w.tcb n).state w)
            (λ w2.
              Rest-bind w2 (λ w. some (set_state n s w)) (enter n s w2) (enter-Rest s w2)
                (λ w3. set_tcb-Rest n _ w3 refl)))
  ]

-- A loop over a state queue.
pub each-Rest :
    (body : ℕ → World → Option World)
    → ((n : ℕ) (w : World) → Where (Rest w) (body n w))
    → (ns : List ℕ) (w : World) → Where (Rest w) (each body ns w)
unfolding each
each-Rest body k [] w = Rest-self w
each-Rest body k (n ∷ ns) w = Rest-bind w (each body ns) (body n w) (k n w) (each-Rest body k ns)
