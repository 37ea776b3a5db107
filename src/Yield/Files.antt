-- ===== src/Yield/Files.antt =====
-- The tree and the queue of the detached threads stay as they are from `node->state == RUNNING` on, in the
-- dispatcher of src/pthipth_yield.c.
use pthipth.Prelude.{
  ℕ, ◌≡◌, refl, sym, ap, subst, ◌∙◌, true, false, Bool-cases, inl, inr, Option, none, some, ◌==◌,
  has, Distinct, arith, ℤ,
}
use pthipth.Avl.Balance.{IsAvl}
use pthipth.Avl.Order.{entries, Sorted, find}
use pthipth.World.Valid.{Valid}
use pthipth.Yield.Dispatch.{SameDead}
use pthipth.World.{World, defunct, ready, running, same_state, change_to_state}
use pthipth.World.Frame.{Rest, Where, Rest-self, change_to_state-Rest}
use pthipth.Aging.{Run, done, fault, out_of_fuel, run, ◌>>=◌}
use pthipth.Yield.{scheduler, stamp, wake_up, to_ready, hand_over, select_next, choose}
use pthipth.Yield.Sweep.{Files}

-- The same tree, queue, ids and aging factors.
abbrev pub SameFiles : World → World → Type 0
SameFiles w w' =
    (w'.avl_root ≡ w.avl_root)
    × (w'.defunct_state ≡ w.defunct_state)
    × ((m : ℕ) → (w'.tcb m).tid ≡ (w.tcb m).tid)
    × ((m : ℕ) → (w'.tcb m).aging_factor ≡ (w.tcb m).aging_factor)

pub SameFiles-Files : (w w' : World) → SameFiles w w' → Files w → Files w'
SameFiles-Files w w' s f = record {
  avl_lem = subst IsAvl (sym s.0) f.avl_lem;
  sorted_lem = subst (λ t. Sorted (entries t)) (sym s.0) f.sorted_lem;
  filed_lem = λ n h.
      let (real, at) = f.filed_lem n (subst (λ ds. has n ds ≡ true) s.1 h) in
      (
        real,
        subst (λ t. find (w'.tcb n).tid (entries t) ≡ n) (sym s.0)
            (ap (λ k. find k (entries w.avl_root)) (s.2 n) ∙ at),
      );
  distinct_lem = subst Distinct (sym s.1) f.distinct_lem;
}

pub Rest-SameFiles : (w w' : World) → Rest w w' → SameFiles w w'
Rest-SameFiles w w' r =
    (r.0, r.1, (λ m. ap (λ t. t.tid) (r.3 m)), λ m. ap (λ t. t.aging_factor) (r.3 m))

pub SameFiles-trans : (w w' w'' : World) → SameFiles w w' → SameFiles w' w'' → SameFiles w w''
SameFiles-trans w w' w'' a b = (b.0 ∙ a.0, b.1 ∙ a.1, (λ m. b.2 m ∙ a.2 m), λ m. b.3 m ∙ a.3 m)

-- What the dispatcher needs, and leaves: the invariant of the scheduler, the tree with the detached
-- threads and with all that have not ended, and an idle thread that does not age.
pub record KeptUp (idle : ℕ) (w : World) : Type 0 where
  pub valid : Valid idle w
  pub files : Files w
  pub known_lem :
      (n : ℕ)
      → same_state (w.tcb n).state defunct ≡ false
      → find (w.tcb n).tid (entries w.avl_root) ≡ n
  pub dead_lem : (n : ℕ) → has n w.defunct_state ≡ true → same_state (w.tcb n).state defunct ≡ true
  pub idle_lem : (w.tcb idle).aging_factor ≡ 0

-- A state with the same tree, queue and ids, in which the threads that were defunct still are.
pub carry :
    (idle : ℕ) (w w' : World)
    → Valid idle w'
    → SameFiles w w'
    → ((m : ℕ)
        → same_state (w.tcb m).state defunct ≡ true
        → same_state (w'.tcb m).state defunct ≡ true)
    → KeptUp idle w
    → KeptUp idle w'
carry idle w w' v s d k = record {
  valid = v;
  files = SameFiles-Files w w' s k.files;
  known_lem = λ n h.
      let alive : same_state (w.tcb n).state defunct ≡ false = ground (arith, d n, h) in
      subst (λ t. find (w'.tcb n).tid (entries t) ≡ n) (sym s.0)
        (ap (λ k. find k (entries w.avl_root)) (s.2 n) ∙ k.known_lem n alive);
  dead_lem = λ n h. d n (k.dead_lem n (subst (λ ds. has n ds ≡ true) s.1 h));
  idle_lem = s.3 idle ∙ k.idle_lem;
}

pub dies :
    (w w' : World)
    → SameDead w w'
    → (m : ℕ) → same_state (w.tcb m).state defunct ≡ true
    → same_state (w'.tcb m).state defunct ≡ true
dies w w' d m h = d m ∙ h

abbrev pub EndsSame : World → Run (World × ℤ) → Type 0
EndsSame w (done r) = SameFiles w r.0
EndsSame w fault = Unit
EndsSame w out_of_fuel = Unit

EndsSame-trans :
    (w w' : World) (r : Run (World × ℤ)) → SameFiles w w' → EndsSame w' r → EndsSame w r
EndsSame-trans w w' (done (w'', z)) a b = SameFiles-trans w w' w'' a b
EndsSame-trans w w' fault a b = tt
EndsSame-trans w w' out_of_fuel a b = tt

module _ (node : ℕ) where
  hand_over-Same : (next : ℕ) (w : World) → SameFiles w (hand_over node next w).0
  unfolding hand_over wake_up
  hand_over-Same next w = elim (Bool-cases (next == node)) [
    | inl e ↦ rw e (refl, refl, (λ m. refl), λ m. refl)
    | inr e ↦ rw e (refl, refl, (λ m. ground arith), λ m. ground arith)
  ]

  stamp-Rest : (next now : ℕ) (w : World) → Rest w (stamp node next now w)
  unfolding stamp
  stamp-Rest next now w = (refl, refl, refl, λ m. ground arith)

  then_run :
      (w : World) (f : World → Run (World × ℤ))
      → ((w' : World) → EndsSame w' (f w'))
      → (o : Option World) → Where (Rest w) o
      → EndsSame w (run o >>= f)
  then_run w f k none r = tt
  then_run w f k (some w') r = EndsSame-trans w w' (f w') (Rest-SameFiles w w' r) (k w')

  select_next-Same : (next now : ℕ) (w : World) → EndsSame w (select_next node next now w)
  unfolding select_next
  select_next-Same next now w = elim (Bool-cases (next == 0)) [
    | inl e ↦ rw e tt
    | inr e ↦
        let w1 = stamp node next now w in
        rw e (
          EndsSame-trans w w1 _ (Rest-SameFiles w w1 (stamp-Rest next now w)) (
            then_run w1 (λ w. done (hand_over node next w)) (hand_over-Same next)
              (change_to_state next running w1) (change_to_state-Rest next running w1)))
  ]

  to_ready-Rest : (w : World) → Where (Rest w) (to_ready node w)
  unfolding to_ready
  to_ready-Rest w = elim (Bool-cases (same_state (w.tcb node).state running)) [
    | inl e ↦ rw e (change_to_state-Rest node ready w)
    | inr e ↦ rw e (Rest-self w)
  ]

  scheduler-Same : (w : World) → SameFiles w (scheduler node w).0
  unfolding scheduler
  scheduler-Same w = (refl, refl, (λ m. refl), λ m. refl)

  pub choose-Same : (now : ℕ) (w : World) → EndsSame w (choose now node w)
  unfolding choose
  choose-Same now w =
      then_run w (λ w. select_next node (scheduler node w).1 now (scheduler node w).0)
        (λ w'.
          EndsSame-trans w' (scheduler node w').0 _ (scheduler-Same w')
            (select_next-Same (scheduler node w').1 now (scheduler node w').0))
        (to_ready node w) (to_ready-Rest w)
