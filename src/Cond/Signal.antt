-- ===== src/Cond/Signal.antt =====
-- What `signal` and `wait_non` of src/pthipth_cond.c do, and how they go together.
use pthipth.Prelude.{
  ℕ, ◌≡◌, ◌≢◌, refl, sym, ap, subst, ◌∙◌, true, false, Option, none, some, List, [], ◌∷◌, ◌++◌,
  ◌==◌, arith, Bool-cases, inl, inr, has, All, ◌>>=◌, pos,
}
use pthipth.World.{World, Tcb, ready, blocked, set_tcb, Next, to_yield}
use pthipth.World.Moves.{Returns, Returns-mono}
use pthipth.World.Valid.{
  Valid, Changed, set_tcb-Valid, change_to_state-Valid, Changed-self, Changed-other,
}
use pthipth.World.Wake.{Woken, blocked-real}
use pthipth.Cond.{waits, wake, select, wake_selected, signal, wait_non}
use pthipth.World.Result.{ReturnsWith, ReturnsWith-mono, with-value}
use pthipth.Cond.Wakes.{cleared, wake-Wakes}

select-first :
    (cond : ℕ) (tcb : ℕ → Tcb) (before after : List ℕ) (n : ℕ)
    → All (λ m. waits cond (tcb m) ≡ false) before
    → waits cond (tcb n) ≡ true
    → select cond tcb (before ++ (n ∷ after)) ≡ n
unfolding select
select-first cond tcb [] after n a e = rw e refl
select-first cond tcb (m ∷ before) after n a e = rw a.0 (select-first cond tcb before after n a.1 e)

-- The only waiter is selected.
select-only :
    (cond : ℕ) (tcb : ℕ → Tcb) (ns : List ℕ) (n : ℕ)
    → ((m : ℕ) → m ≢ n → waits cond (tcb m) ≡ false)
    → waits cond (tcb n) ≡ true
    → has n ns ≡ true
    → select cond tcb ns ≡ n
unfolding select
select-only cond tcb [] n o e h = cc
select-only cond tcb (m ∷ ns) n o e h = elim (Bool-cases (waits cond (tcb m))) [
  | inl f ↦ rw f (ground (arith, o m))
  | inr f ↦ rw f (select-only cond tcb ns n o e (ground arith))
]

abbrev pub Signalled : (idle : ℕ) → World → ℕ → World → Type 0
Signalled idle w n w' =
    Valid idle w' × Woken cleared true (w.tcb n) (w'.tcb n) × ((m : ℕ) → m ≢ n → w'.tcb m ≡ w.tcb m)

module _ (idle cond : ℕ) (h : cond ≢ 0) (w : World) (v : Valid idle w) where
  woken :
      (n : ℕ)
      → n ≢ 0
      → select cond w.tcb w.blocked_state ≡ n
      → wake_selected (select cond w.tcb w.blocked_state) w ≡ wake n w
  unfolding wake_selected
  woken n r s = let found : (n == 0) ≡ false = ground arith in rw (s, found) refl

  signal-selected :
      (n : ℕ)
      → n ≢ 0
      → waits cond (w.tcb n) ≡ true
      → select cond w.tcb w.blocked_state ≡ n
      → ReturnsWith (pos 0) (Signalled idle w n) (signal cond w)
  unfolding signal
  signal-selected n r e s =
      let real : (cond == 0) ≡ false = ground arith in
      rw real (
        with-value (pos 0) (Signalled idle w n) _ (
          subst (Returns (Signalled idle w n)) (sym (woken n r s))
            (wake-Wakes idle w n r v (λ t. true) refl)))

  waiter-real : (n : ℕ) → waits cond (w.tcb n) ≡ true → n ≢ 0
  waiter-real n e = blocked-real idle w v n (ground (arith, v.consistent.blocked_lem n))

  -- On a condition variable that is not NULL, `signal` returns 0 and keeps the invariant of the scheduler;
  -- of the threads that wait on the variable the one that blocked first is ready and waits no more, and
  -- every other thread is as it was.
  pub signal-first :
      (before after : List ℕ) (n : ℕ)
      → w.blocked_state ≡ before ++ (n ∷ after)
      → All (λ m. waits cond (w.tcb m) ≡ false) before
      → waits cond (w.tcb n) ≡ true
      → ReturnsWith (pos 0) (Signalled idle w n) (signal cond w)
  signal-first before after n q a e =
      signal-selected n (waiter-real n e) e
        (ap (select cond w.tcb) q ∙ select-first cond w.tcb before after n a e)

-- What `wait_non` leaves: the thread is blocked and waits on the variable.
abbrev Waiting : (idle : ℕ) → World → (self cond : ℕ) → World → Type 0
Waiting idle w self cond w' =
    Valid idle w' × (waits cond (w'.tcb self) ≡ true) × ((m : ℕ) → m ≢ self → w'.tcb m ≡ w.tcb m)

abbrev pub ThenSignalled : (idle : ℕ) → (self cond : ℕ) → Option (World × Next) → Type 0
ThenSignalled idle self cond none = ⊥
ThenSignalled idle self cond (some (w, next)) =
    (next ≡ to_yield)
    × ReturnsWith (pos 0)
        (λ w'. Valid idle w' × ((w'.tcb self).state ≡ ready) × ((w'.tcb self).current_cond ≡ 0))
        (signal cond w)

module _ (idle cond self : ℕ) (h : cond ≢ 0) (r : self ≢ 0) (i : self ≢ idle) where
  blocked-Valid :
      (w w' : World)
      → Valid idle w'
      → Valid idle (set_tcb self (record (w'.tcb self) { current_cond = cond }) w')
  blocked-Valid w w' v =
      set_tcb-Valid idle w' self _ v refl refl (v.priority_lem self) (v.below_idle self)

  after :
      (w w' : World)
      → ((m : ℕ) → m ≢ self → waits cond (w.tcb m) ≡ false)
      → Valid idle w'
      → Changed w self blocked w'
      → ReturnsWith
          (pos 0)
          (λ w'. Valid idle w' × ((w'.tcb self).state ≡ ready) × ((w'.tcb self).current_cond ≡ 0))
          (signal cond (set_tcb self (record (w'.tcb self) { current_cond = cond }) w'))
  after w w' o v c =
      let w1 = set_tcb self (record (w'.tcb self) { current_cond = cond }) w' in
      let u = blocked-Valid w w' v in
      let e : waits cond (w1.tcb self) ≡ true = ground (arith, Changed-self w self blocked w' c) in
      let others : (m : ℕ) → m ≢ self → waits cond (w1.tcb m) ≡ false =
        λ m k. ground (arith, o m k, Changed-other w self blocked w' c m k) in
      ReturnsWith-mono (pos 0) (Signalled idle w1 self)
        (λ w'. Valid idle w' × ((w'.tcb self).state ≡ ready) × ((w'.tcb self).current_cond ≡ 0))
        (λ w' s. (s.0, s.1.0, s.1.2)) _
        (signal-selected idle cond h w1 u self r e (
          select-only cond w1.tcb w1.blocked_state self others e
            (ground (arith, u.consistent.blocked_lem self, Changed-self w self blocked w' c))))

  then_signal :
      (w : World) (o : Option World)
      → ((m : ℕ) → m ≢ self → waits cond (w.tcb m) ≡ false)
      → Returns (λ w'. Valid idle w' × Changed w self blocked w') o
      → ThenSignalled idle self cond
          (o >>= λ w. some (set_tcb self (record (w.tcb self) { current_cond = cond }) w, to_yield))
  then_signal w none o b = elim b [ ]
  then_signal w (some w') o (v, c) = (refl, after w w' o v c)

  -- After `wait_non` of a thread that is not the idle thread, on a variable that no other thread waits on,
  -- `signal` on the same variable makes the thread ready, and it waits on no variable.
  pub wait_non-signal :
      (w : World)
      → Valid idle w
      → ((m : ℕ) → m ≢ self → waits cond (w.tcb m) ≡ false)
      → ThenSignalled idle self cond (wait_non self cond w)
  unfolding wait_non
  wait_non-signal w v o =
      let real : (cond == 0) ≡ false = ground arith in
      rw real (
        then_signal w _ o (
          Returns-mono (λ w'. Valid idle w' × Changed w self blocked w')
            (λ w'. Valid idle w' × Changed w self blocked w') (λ w' r. r) _
            (change_to_state-Valid idle w self r v blocked (v.outside_idle self i))))
