-- ===== src/Yield/Upkeep.antt =====
-- The whole of `__pthipth_dispatcher` of src/pthipth_yield.c, its upkeep included.
use pthipth.Prelude.{
  ℕ, ◌≡◌, refl, sym, ap, subst, ◌∙◌, true, false, Option, none, some, arith, has, ℤ, Bool,
}
use pthipth.Avl.Order.{entries, find}
use pthipth.World.{World, Tcb, defunct, same_state, running}
use pthipth.World.Moves.{Returns, Returns-mono}
use pthipth.World.Valid.{Valid, rest-Valid}
use pthipth.World.Wake.{Woken, Awake, same}
use pthipth.World.Frame.{Rest, Returns-Where}
use pthipth.Sleep.{check_sleeping}
use pthipth.Sleep.Wakes.{is_due, check_sleeping-Awake}
use pthipth.Sleep.Frame.{check_sleeping-Rest}
use pthipth.Aging.{Run, done, fault, out_of_fuel, run, ◌>>=◌, aging}
use pthipth.Aging.Keeps.{Aged, aging-Aged}
use pthipth.Aging.Frame.{Ends, aging-Rest}
use pthipth.Yield.{check_detach, choose, dispatcher}
use pthipth.Yield.Sweep.{SweptWorld, check_detach-Swept}
use pthipth.Yield.Swept.{Filed}
use pthipth.Yield.Files.{KeptUp, carry, dies, Rest-SameFiles, EndsSame, choose-Same}
use pthipth.Yield.Dispatch.{Sole, HandedOver, Ran, choose-Ran}

-- No thread but the caller runs.
abbrev pub Only : World → ℕ → Type 0
Only w node = (m : ℕ) → (w.tcb m).state ≡ running → m ≡ node

-- How the dispatcher ends.
abbrev pub Settled : (idle node : ℕ) → Run (World × ℤ) → Type 0
Settled idle node fault = ⊥
Settled idle node out_of_fuel = ⊥
Settled idle node (done (w, z)) = KeptUp idle w × ((n : ℕ) × Sole w n × HandedOver node n w z)

-- How it ends, if its fuel is enough.
abbrev pub Dispatched : (idle node : ℕ) → Run (World × ℤ) → Type 0
Dispatched idle node fault = ⊥
Dispatched idle node out_of_fuel = Unit
Dispatched idle node (done (w, z)) = KeptUp idle w × ((n : ℕ) × Sole w n × HandedOver node n w z)

module _ (idle node : ℕ) where
  abbrev pub Upkept : World → Type 0
  Upkept w = KeptUp idle w × Only w node

  Woken-state : (b : Bool) (t t' : Tcb) → Woken same b t t' → t'.state ≡ running → t.state ≡ running
  Woken-state true t t' k r = let e = sym k.0 ∙ r in cc
  Woken-state false t t' k r = sym (ap (λ t. t.state) k) ∙ r

  Woken-dead :
      (now : ℕ) (t t' : Tcb)
      → Woken same (is_due now t) t t'
      → same_state t'.state defunct ≡ same_state t.state defunct
  Woken-dead now t t' = by_test (is_due now t) refl
    where
      by_test :
          (b : Bool)
          → is_due now t ≡ b
          → Woken same b t t'
          → same_state t'.state defunct ≡ same_state t.state defunct
      by_test false e k = ap (λ t. same_state t.state defunct) k
      by_test true e k = ap (λ s. same_state s defunct) k.0 ∙ (ground (arith, e))

  pub slept-Upkept : (now : ℕ) (w : World) → Upkept w → Returns Upkept (check_sleeping now w)
  slept-Upkept now w (k, o) =
      Returns-mono (λ w'. Awake idle same (is_due now) w w' × Rest w w') Upkept
        (λ w' r. (
          carry idle w w' r.0.0 (Rest-SameFiles w w' r.1)
              (dies w w' (λ m. Woken-dead now (w.tcb m) (w'.tcb m) (r.0.1 m))) k,
          λ m e. o m (Woken-state (is_due now (w.tcb m)) (w.tcb m) (w'.tcb m) (r.0.1 m) e),
        ))
        (check_sleeping now w)
        (Returns-Where (Awake idle same (is_due now) w) (Rest w) (check_sleeping now w)
          (check_sleeping-Awake idle now w k.valid) (check_sleeping-Rest now w))

  -- What holds where the aging ends, which faults nowhere.
  abbrev Unless : Run World → Type 0
  Unless (done w) = Upkept w
  Unless fault = ⊥
  Unless out_of_fuel = Unit

  aged-Upkept : (fuel now : ℕ) (w : World) → Upkept w → Unless (aging fuel now w)
  aged-Upkept fuel now w (k, o) =
      both (aging fuel now w) (aging-Aged idle now fuel w k.valid (ground (arith, k.idle_lem)))
        (aging-Rest now fuel w)
    where
      both : (r : Run World) → Aged idle now w r → Ends (Rest w) r → Unless r
      both fault a r = a
      both out_of_fuel a r = tt
      both (done w') a r = (
        carry idle w w' a.0 (Rest-SameFiles w w' r)
            (dies w w' (λ m. ap (λ s. same_state s defunct) (a.1 m))) k,
        λ m e. o m (sym (a.1 m) ∙ e),
      )

  -- A thread that has not ended is not taken out of the tree.
  swept-known :
      (w w' : World)
      → KeptUp idle w
      → SweptWorld node w.defunct_state w w'
      → (n : ℕ) → same_state (w.tcb n).state defunct ≡ false
      → find (w.tcb n).tid (entries w'.avl_root) ≡ n
  swept-known w w' k s n h =
      s.1.other_lem (w.tcb n).tid (λ m i g e.
        let at = (k.files.filed_lem m i).1 in
        let same : m ≡ n = sym at ∙ ap (λ t. find t (entries w.avl_root)) e ∙ k.known_lem n h in
        let no = k.dead_lem m i in
        let yes = ap (λ k. same_state (w.tcb k).state defunct) same ∙ h in cc)
      ∙ k.known_lem n h

  swept-dead :
      (w w' : World)
      → KeptUp idle w
      → SweptWorld node w.defunct_state w w'
      → (n : ℕ) → has n w'.defunct_state ≡ true
      → same_state (w.tcb n).state defunct ≡ true
  swept-dead w w' k s n h = k.dead_lem n (ground (arith, s.1.queue_lem n))

  swept-Upkept : (w : World) → Upkept w → Returns Upkept (check_detach node w)
  swept-Upkept w (k, o) =
      Returns-mono (SweptWorld node w.defunct_state w) Upkept
        (λ w' s.
          let same_tcb : (m : ℕ) → w'.tcb m ≡ w.tcb m = λ m. ap (λ w. w.tcb m) s.0 in
          (
            record {
              valid =
                  subst (Valid idle) (sym s.0)
                    (rest-Valid idle w w'.avl_root w'.defunct_state w.current k.valid);
              files = record {
                avl_lem = s.1.avl_lem;
                sorted_lem = s.1.sorted_lem;
                filed_lem =
                    subst (λ f. Filed f w'.defunct_state (entries w'.avl_root))
                      (sym (ap (λ w. w.tcb) s.0)) s.1.filed_lem;
                distinct_lem = s.1.distinct_lem;
              };
              known_lem = λ n h.
                  ap (λ t. find t.tid (entries w'.avl_root)) (same_tcb n)
                  ∙ swept-known w w' k s n
                      (sym (ap (λ t. same_state t.state defunct) (same_tcb n)) ∙ h);
              dead_lem = λ n h.
                  ap (λ t. same_state t.state defunct) (same_tcb n) ∙ swept-dead w w' k s n h;
              idle_lem = ap (λ t. t.aging_factor) (same_tcb idle) ∙ k.idle_lem;
            },
            λ m e. o m (sym (ap (λ t. t.state) (same_tcb m)) ∙ e),
          ))
        (check_detach node w) (check_detach-Swept node w k.files)

  chosen : (now : ℕ) (w : World) → Upkept w → Settled idle node (choose now node w)
  chosen now w (k, o) =
      both (choose now node w) (choose-Ran idle node now w k.valid o) (choose-Same node now w)
    where
      both : (r : Run (World × ℤ)) → Ran idle node w r → EndsSame w r → Settled idle node r
      both fault a r = a
      both out_of_fuel a r = a
      both (done (w', z)) a r = (carry idle w w' a.0 r (dies w w' a.2) k, a.1)

  then_choose :
      (now : ℕ) (o : Option World)
      → Returns Upkept o
      → Settled idle node (run o >>= λ w. choose now node w)
  then_choose now none r = elim r [ ]
  then_choose now (some w) r = chosen now w r

  settled : (r : Run (World × ℤ)) → Settled idle node r → Dispatched idle node r
  settled fault s = s
  settled out_of_fuel s = tt
  settled (done r) s = s

  pub sweep-Settled :
      (now : ℕ) (w : World)
      → KeptUp idle w
      → Only w node
      → Settled idle node (run (check_detach node w) >>= λ w. choose now node w)
  sweep-Settled now w k o = then_choose now (check_detach node w) (swept-Upkept w (k, o))

  then_sweep :
      (now : ℕ) (r : Run World)
      → Unless r
      → Dispatched idle node (r >>= λ w. run (check_detach node w) >>= λ w. choose now node w)
  then_sweep now fault u = u
  then_sweep now out_of_fuel u = tt
  then_sweep now (done w) u = settled _ (sweep-Settled now w u.0 u.1)

  then_age :
      (fuel t_aging now : ℕ) (o : Option World)
      → Returns Upkept o
      → Dispatched idle node (
          run o >>= λ w.
          aging fuel t_aging w >>= λ w. run (check_detach node w) >>= λ w. choose now node w)
  then_age fuel t_aging now none r = elim r [ ]
  then_age fuel t_aging now (some w) r =
      then_sweep now (aging fuel t_aging w) (aged-Upkept fuel t_aging w r)

  -- From a state that keeps the invariant of the scheduler, in which the tree is balanced and sorted and
  -- has the detached threads, the idle thread does not age, and no thread but the caller runs, the whole
  -- dispatcher does not fault; where its aging ends, it has kept all that, and exactly one thread runs: the
  -- caller, and the result is -1, or another one, which is the current one and is woken up, and the result
  -- is 0.
  pub dispatcher-Dispatched :
      (fuel t_sleep t_aging t_select : ℕ) (w : World)
      → KeptUp idle w
      → Only w node
      → Dispatched idle node (dispatcher fuel t_sleep t_aging t_select node w)
  unfolding dispatcher
  dispatcher-Dispatched fuel t_sleep t_aging t_select w k o =
      then_age fuel t_aging t_select (check_sleeping t_sleep w) (slept-Upkept t_sleep w (k, o))
