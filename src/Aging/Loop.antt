-- ===== src/Aging/Loop.antt =====
-- When the inner loop of src/pthipth_aging.c ends: in a bucket whose threads do not age, and never once
-- it has reached a thread that ages and is not the first.
use pthipth.Prelude.{
  ℕ, zero, suc, ◌≤◌, ◌≡◌, ◌≢◌, refl, sym, ap, subst, ◌∙◌, inl, inr, true, false, Option, none, some,
  List, [], ◌∷◌, ◌++◌, ◌==◌, arith, Bool-cases, has, Distinct, length, has-append, append_assoc,
  ltb,
}
use pthipth.Ready.{first}
use pthipth.World.{World}
use pthipth.World.Invariant.{Consistent, real}
use pthipth.Aging.Promote.{Ages, promote-Ages}
use pthipth.Aging.{
  Run, done, fault, out_of_fuel, next_in, next_at, next, passes, remember, promote, age_bucket,
  aged_of, Turn, ends, faults, goes_on, promoted, turn,
}

next_in-next :
    (head n : ℕ) (before after : List ℕ)
    → has n before ≡ false
    → next_in head n (before ++ (n ∷ after)) ≡ next_in head n (n ∷ after)
unfolding next_in
next_in-next head n [] after h = refl
next_in-next head n (x ∷ before) after h = ground (arith, next_in-next head n before after)

next_in-first : (head n y : ℕ) (ys : List ℕ) → next_in head n (n ∷ y ∷ ys) ≡ y
unfolding next_in
next_in-first head n y ys = ground arith

next_in-last : (head n : ℕ) → next_in head n (n ∷ []) ≡ head
unfolding next_in
next_in-last head n = ground arith

-- A list read to some point: where it goes on, and that its head lies before.
first-append :
    (before : List ℕ) (n y : ℕ) (ys : List ℕ)
    → Distinct (before ++ (n ∷ y ∷ ys))
    → (y == first (before ++ (n ∷ y ∷ ys))) ≡ false
first-append [] n y ys d = ground arith
first-append (x ∷ before) n y ys d = ground (arith, has-append x before (n ∷ y ∷ ys))

has-before :
    (before : List ℕ) (n : ℕ) (after : List ℕ)
    → Distinct (before ++ (n ∷ after))
    → has n before ≡ false
has-before [] n after d = refl
has-before (x ∷ before) n after d =
    ground (arith, has-append x before (n ∷ after), has-before before n after d.1)

abbrev after_turn : (fuel now head : ℕ) → Turn → Run World
after_turn fuel now head t = elim t [
  | ends w' ↦ done w'
  | faults ↦ fault
  | goes_on cur' w' ↦ age_bucket fuel now head cur' w'
]

module _ (now p : ℕ) (w : World) (c : Consistent w) where
  next-bucket :
      (n : ℕ)
      → has n (w.ready_queue.bucket p) ≡ true
      → (before after : List ℕ) → w.ready_queue.bucket p ≡ before ++ (n ∷ after)
      → next w n ≡ next_in (first (w.ready_queue.bucket p)) n (n ∷ after)
  next-bucket n h before after e =
      let out : has n before ≡ false =
        has-before before n after (subst Distinct e (c.bucket_Distinct p)) in
      let own : (w.tcb n).cur_priority ≡ some p = ground (arith, c.bucket_lem n p) in
      ap (next_at w n) own
      ∙ ap (next_in (first (w.ready_queue.bucket p)) n) e
      ∙ next_in-next (first (w.ready_queue.bucket p)) n before after out

  turn-end :
      (head n : ℕ)
      → (n == 0) ≡ false
      → passes (w.tcb n) ≡ true
      → (next w n == head) ≡ true
      → turn now head n w ≡ ends w
  unfolding turn
  turn-end head n z a e = rw (z, a, e) refl

  turn-on :
      (head n y : ℕ)
      → (n == 0) ≡ false
      → passes (w.tcb n) ≡ true
      → next w n ≡ y
      → (y == head) ≡ false
      → turn now head n w ≡ goes_on y w
  unfolding turn
  turn-on head n y z a s e = rw (z, a, s, e) refl

  -- A turn of the loop, and what it goes on with.
  unroll :
      (fuel n : ℕ) (t : Turn)
      → turn now (first (w.ready_queue.bucket p)) n w ≡ t
      → age_bucket (suc fuel) now (first (w.ready_queue.bucket p)) n w
        ≡ after_turn fuel now (first (w.ready_queue.bucket p)) t
  unfolding age_bucket
  unroll fuel n t e = ap (after_turn fuel now (first (w.ready_queue.bucket p))) e

  -- The inner loop leaves a bucket as it is, in which every thread runs or has no aging factor, if its
  -- fuel is at least the number of nodes from the current one on.
  pub age_bucket-done :
      (fuel n : ℕ) (before after : List ℕ)
      → w.ready_queue.bucket p ≡ before ++ (n ∷ after)
      → ((m : ℕ) → has m (w.ready_queue.bucket p) ≡ true → passes (w.tcb m) ≡ true)
      → length (n ∷ after) ≤ fuel
      → age_bucket fuel now (first (w.ready_queue.bucket p)) n w ≡ done w
  unfolding age_bucket
  age_bucket-done zero n before after e a l = ground arith
  age_bucket-done (suc fuel) n before [] e a l =
      let here : has n (w.ready_queue.bucket p) ≡ true =
        ground (arith, has-append n before (n ∷ [])) in
      let shown : (n == 0) ≡ false = ground (arith, real w c p) in
      let last : next w n ≡ first (w.ready_queue.bucket p) =
        next-bucket n here before [] e ∙ next_in-last (first (w.ready_queue.bucket p)) n in
      let end : (next w n == first (w.ready_queue.bucket p)) ≡ true = ground arith in
      unroll fuel n (ends w) (turn-end (first (w.ready_queue.bucket p)) n shown (a n here) end)
  age_bucket-done (suc fuel) n before (y ∷ ys) e a l =
      let here : has n (w.ready_queue.bucket p) ≡ true =
        ground (arith, has-append n before (n ∷ y ∷ ys)) in
      let shown : (n == 0) ≡ false = ground (arith, real w c p) in
      let step : next w n ≡ y =
        next-bucket n here before (y ∷ ys) e
        ∙ next_in-first (first (w.ready_queue.bucket p)) n y ys in
      let more : (y == first (w.ready_queue.bucket p)) ≡ false =
        ap (λ xs. y == first xs) e
        ∙ first-append before n y ys (subst Distinct e (c.bucket_Distinct p)) in
      unroll fuel n (goes_on y w)
        (turn-on (first (w.ready_queue.bucket p)) n y shown (a n here) step more)
      ∙ (age_bucket-done fuel y (before ++ (n ∷ [])) ys (e ∙ (simp append_assoc)) a (omega arith))

module _ (now head cur : ℕ) (h : cur ≢ head) where
  remember-Ages :
      (w : World) → passes (w.tcb cur) ≡ false → passes ((remember now cur w).tcb cur) ≡ false
  unfolding remember
  remember-Ages w a = ground arith

  -- The next turn is at the same thread, which still ages, if there is one.
  abbrev Stays : Turn → Type 0
  Stays (ends w) = ⊥
  Stays faults = Unit
  Stays (goes_on n w) = (n ≡ cur) × (passes (w.tcb cur) ≡ false)

  promoted-Stays : (o : Option World) → Ages cur o → Stays (promoted head cur o)
  promoted-Stays none a = tt
  promoted-Stays (some w) a =
      let no : (cur == head) ≡ false = ground arith in rw (no, Stays) (refl, a)

  turn-Stays : (w : World) → passes (w.tcb cur) ≡ false → Stays (turn now head cur w)
  unfolding turn
  turn-Stays w a =
      let no : (cur == head) ≡ false = ground arith in
      elim (Bool-cases (cur == 0)) [
        | inl z ↦ rw (z, Stays) tt
        | inr z ↦ elim (Bool-cases (ltb (aged_of now (w.tcb cur)) (w.tcb cur).priority)) [
          | inl l ↦
              rw (z, a, l, Stays)
                (promoted-Stays (promote cur (aged_of now (w.tcb cur)) (remember now cur w)) (
                  promote-Ages cur (aged_of now (w.tcb cur)) (remember now cur w)
                    (remember-Ages w a)))
          | inr l ↦ rw (z, a, l, no, Stays) (refl, remember-Ages w a)
        ]
      ]

  abbrev NotDone : Run World → Type 0
  NotDone (done w) = ⊥
  NotDone fault = Unit
  NotDone out_of_fuel = Unit

  -- A loop that goes on from turns that stay.
  next-turn :
      (fuel : ℕ)
      → ((w : World) → passes (w.tcb cur) ≡ false → NotDone (age_bucket fuel now head cur w))
      → (t : Turn) → Stays t
      → NotDone (after_turn fuel now head t)
  next-turn fuel k (ends w) s = s
  next-turn fuel k faults s = tt
  next-turn fuel k (goes_on n w) (e, a) =
      subst (λ n. NotDone (age_bucket fuel now head n w)) (sym e) (k w a)

  stuck :
      (fuel : ℕ) (w : World) → passes (w.tcb cur) ≡ false → NotDone (age_bucket fuel now head cur w)
  unfolding age_bucket
  stuck zero w a = tt
  stuck (suc fuel) w a = next-turn fuel (stuck fuel) (turn now head cur w) (turn-Stays w a)

  -- Once the inner loop has reached a thread that ages, and that is not the first one it knows, it does
  -- not come to its end, whatever the fuel.
  pub age_bucket-stuck :
      (fuel : ℕ) (w w' : World)
      → passes (w.tcb cur) ≡ false
      → age_bucket fuel now head cur w ≢ done w'
  age_bucket-stuck fuel w w' a e = subst NotDone e (stuck fuel w a)
