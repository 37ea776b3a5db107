-- ===== src/Yield/Dispatch.antt =====
-- One thread runs: what `__pthipth_dispatcher` of src/pthipth_yield.c leaves, after its upkeep.
use pthipth.Prelude.{
  ℕ, ◌≡◌, ◌≢◌, refl, ap, sym, ◌∙◌, ◌⊎◌, inl, inr, true, false, Option, none, some, ◌==◌, arith,
  Bool-cases, ==_iff, ℤ, pos, minus_one,
}
use pthipth.World.{
  ThreadState, blocked, sleeping, World, ready, running, defunct, same_state, up, set_tcb,
  change_to_state,
}
use pthipth.World.Invariant.{queued}
use pthipth.World.Moves.{Returns, Returns-mono, same_state-eq}
use pthipth.World.Valid.{
  Valid, Changed, Changed-self, Changed-other, change_to_state-Valid, set_tcb-Valid, rest-Valid,
}
use pthipth.Aging.{Run, done, fault, out_of_fuel, run, ◌>>=◌}
use pthipth.Yield.{scheduler, stamp, wake_up, to_ready, hand_over, select_next, choose}
use pthipth.Yield.Scheduler.{Chosen, scheduler-Chosen}

-- No thread runs.
abbrev Idle : World → Type 0
Idle w = (n : ℕ) → (w.tcb n).state ≢ running

-- The thread runs, and no other.
abbrev pub Sole : World → ℕ → Type 0
Sole w n = ((w.tcb n).state ≡ running) × ((m : ℕ) → (w.tcb m).state ≡ running → m ≡ n)

-- The thread that runs is the caller, for -1, or another one, which is the current one and whose futex
-- is up, for 0.
abbrev pub HandedOver : (node next : ℕ) → World → ℤ → Type 0
HandedOver node next w z =
    ((next ≡ node) × (z ≡ minus_one))
    ⊎ ((next ≢ node) × (z ≡ pos 0) × (w.current ≡ next) × ((w.tcb next).sched_futex ≡ up))

-- The same threads are defunct.
abbrev pub SameDead : World → World → Type 0
SameDead w w' = (m : ℕ) → same_state (w'.tcb m).state defunct ≡ same_state (w.tcb m).state defunct

-- What is left of the state `w0`.
abbrev pub Ran : (idle node : ℕ) → World → Run (World × ℤ) → Type 0
Ran idle node w0 fault = ⊥
Ran idle node w0 out_of_fuel = ⊥
Ran idle node w0 (done (w, z)) =
    Valid idle w × ((n : ℕ) × Sole w n × HandedOver node n w z) × SameDead w0 w

defunct-running : defunct ≢ running
defunct-running e = cc

ready-running : ready ≢ running
ready-running e = cc

false-true : false ≢ true
false-true e = cc

pub SameDead-trans : (w w' w'' : World) → SameDead w w' → SameDead w' w'' → SameDead w w''
SameDead-trans w w' w'' a b m = b m ∙ a m

-- A change of state of a thread that is not defunct, to another one.
pub Changed-SameDead :
    (w w' : World) (n : ℕ) (s : ThreadState)
    → Changed w n s w'
    → same_state (w.tcb n).state defunct ≡ false
    → same_state s defunct ≡ false
    → SameDead w w'
Changed-SameDead w w' n s c a b m = elim (Bool-cases (m == n)) [
  | inl e ↦
      let i = (==_iff m n).0 e in
      ap (λ t. same_state t.state defunct) (ap (λ k. w'.tcb k) i ∙ Changed-self w n s w' c)
      ∙ b
      ∙ sym a
      ∙ ap (λ k. same_state (w.tcb k).state defunct) (sym i)
  | inr e ↦ ap (λ t. same_state t.state defunct) (Changed-other w n s w' c m (ground arith))
]

pub running-alive : (s : ThreadState) → same_state s running ≡ true → same_state s defunct ≡ false
running-alive s e = ap (λ s. same_state s defunct) (same_state-eq s running e)

pub queued-alive : (s : ThreadState) → queued s ≡ true → same_state s defunct ≡ false
queued-alive ready q = refl
queued-alive running q = refl
queued-alive blocked q = refl
queued-alive sleeping q = refl
queued-alive defunct q = sym q

module _ (idle node : ℕ) where
  ready_null : (w : World) → Valid idle w → (w.tcb 0).state ≢ running
  ready_null w v e = defunct-running (sym v.consistent.null_lem ∙ e)

  stopped :
      (w w' : World)
      → Changed w node ready w'
      → ((m : ℕ) → (w.tcb m).state ≡ running → m ≡ node)
      → Idle w'
  stopped w w' c o m r = elim (Bool-cases (m == node)) [
    | inl e ↦ ready-running (
        sym (ap (λ t. t.state) (Changed-self w node ready w' c))
        ∙ ap (λ n. (w'.tcb n).state) (sym ((==_iff m node).0 e))
        ∙ r)
    | inr e ↦
        let ne : m ≢ node = ground arith in
        ne (o m (sym (ap (λ t. t.state) (Changed-other w node ready w' c m ne)) ∙ r))
  ]

  not_running :
      (w : World)
      → ((m : ℕ) → (w.tcb m).state ≡ running → m ≡ node)
      → same_state (w.tcb node).state running ≡ false
      → Idle w
  not_running w o e m r =
      false-true
        (sym e ∙ ap (λ s. same_state s running) (ap (λ n. (w.tcb n).state) (sym (o m r)) ∙ r))

  to_ready-Idle :
      (w : World)
      → Valid idle w
      → ((m : ℕ) → (w.tcb m).state ≡ running → m ≡ node)
      → Returns (λ w'. Valid idle w' × Idle w' × SameDead w w') (to_ready node w)
  unfolding to_ready
  to_ready-Idle w v o = elim (Bool-cases (same_state (w.tcb node).state running)) [
    | inl e ↦
        let r = same_state-eq (w.tcb node).state running e in
        let h : node ≢ 0 = λ z. ready_null w v (ap (λ n. (w.tcb n).state) (sym z) ∙ r) in
        rw e (
          Returns-mono (λ w'. Valid idle w' × Changed w node ready w')
            (λ w'. Valid idle w' × Idle w' × SameDead w w')
            (λ w' k. (
              k.0,
              stopped w w' k.1 o,
              Changed-SameDead w w' node ready k.1 (running-alive (w.tcb node).state e) refl,
            ))
            (change_to_state node ready w)
            (change_to_state-Valid idle w node h v ready (v.priority_lem node)))
    | inr e ↦ rw e (v, (λ m r. not_running w o e m r), λ m. refl)
  ]

  stamp-Valid : (w : World) (next now : ℕ) → Valid idle w → Valid idle (stamp node next now w)
  unfolding stamp
  stamp-Valid w next now v =
      let t = record (w.tcb next) { last_selected = now } in
      let w' = set_tcb next t w in
      let v' = set_tcb-Valid idle w next t v refl refl (v.priority_lem next) (v.below_idle next) in
      set_tcb-Valid idle w' node _ v' refl refl (v'.priority_lem node) (v'.below_idle node)

  stamp-state :
      (w : World) (next now m : ℕ) → ((stamp node next now w).tcb m).state ≡ (w.tcb m).state
  unfolding stamp
  stamp-state w next now m = ground arith

  hand_over-Ran :
      (w0 w : World) (next : ℕ)
      → Valid idle w
      → Sole w next
      → SameDead w0 w
      → Ran idle node w0 (done (hand_over node next w))
  unfolding hand_over wake_up
  hand_over-Ran w0 w next v s d = elim (Bool-cases (next == node)) [
    | inl e ↦ rw e (v, (next, s, inl ((==_iff next node).0 e, refl)), d)
    | inr e ↦
        let w1 = record w { current = next } in
        let v1 : Valid idle w1 = rest-Valid idle w w.avl_root w.defunct_state next v in
        rw e (
          set_tcb-Valid idle w1 next _ v1 refl refl (v.priority_lem next) (v.below_idle next),
          (
            next,
            (ground (arith, s.0), λ m i. s.1 m (ground arith)),
            inr (ground arith, refl, refl, ground arith),
          ),
          (λ m. ground (arith, d m)),
        )
  ]

  then_hand_over :
      (w0 w : World) (next : ℕ)
      → Idle w
      → SameDead w0 w
      → same_state (w.tcb next).state defunct ≡ false
      → (o : Option World) → Returns (λ w'. Valid idle w' × Changed w next running w') o
      → Ran idle node w0 (run o >>= λ w. done (hand_over node next w))
  then_hand_over w0 w next i d q none r = elim r [ ]
  then_hand_over w0 w next i d q (some w') (v, c) =
      hand_over-Ran w0 w' next v
        (
          ap (λ t. t.state) (Changed-self w next running w' c),
          λ m r. elim (Bool-cases (m == next)) [
            | inl e ↦ (==_iff m next).0 e
            | inr e ↦
                let ne : m ≢ next = ground arith in
                elim (i m
                  (sym (ap (λ t. t.state) (Changed-other w next running w' c m ne)) ∙ r)) [ ]
          ],
        )
        (SameDead-trans w0 w w' d (Changed-SameDead w w' next running c q refl))

  select_next-Ran :
      (w0 w : World) (next now : ℕ)
      → Valid idle w
      → Idle w
      → Chosen w next
      → SameDead w0 w
      → Ran idle node w0 (select_next node next now w)
  unfolding select_next
  select_next-Ran w0 w next now v i c d =
      let real : (next == 0) ≡ false = ground (arith, c.ne_null) in
      let w1 = stamp node next now w in
      let q : queued (w1.tcb next).state ≡ true =
        ap queued (stamp-state w next now next) ∙ c.is_queued in
      rw real (
        then_hand_over w0 w1 next (λ m r. i m (sym (stamp-state w next now m) ∙ r))
          (λ m. ap (λ s. same_state s defunct) (stamp-state w next now m) ∙ d m)
          (queued-alive (w1.tcb next).state q) (change_to_state next running w1)
          (change_to_state-Valid idle w1 next c.ne_null (stamp-Valid w next now v) running q))

  then_select :
      (w0 : World) (now : ℕ) (o : Option World)
      → Returns (λ w. Valid idle w × Idle w × SameDead w0 w) o
      → Ran idle node w0
          (run o >>= λ w. select_next node (scheduler node w).1 now (scheduler node w).0)
  then_select w0 now none r = elim r [ ]
  then_select w0 now (some w) (v, i, d) =
      let s = scheduler-Chosen idle w v node in
      select_next-Ran w0 (scheduler node w).0 (scheduler node w).1 now s.0
        (λ m r. i m (sym (ap (λ t. t.state) (s.2 m)) ∙ r)) s.1
        (λ m. ap (λ t. same_state t.state defunct) (s.2 m) ∙ d m)

  -- From `node->state == RUNNING` on, the dispatcher returns and keeps the invariant of the scheduler, if
  -- no thread but the caller runs; then exactly one thread runs: the caller, and the result is -1, or
  -- another one, which is the current one and is woken up, and the result is 0; the same threads are
  -- defunct as before.
  pub choose-Ran :
      (now : ℕ) (w : World)
      → Valid idle w
      → ((m : ℕ) → (w.tcb m).state ≡ running → m ≡ node)
      → Ran idle node w (choose now node w)
  unfolding choose
  choose-Ran now w v o = then_select w now (to_ready node w) (to_ready-Idle w v o)
