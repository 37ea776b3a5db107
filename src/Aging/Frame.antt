-- ===== src/Aging/Frame.antt =====
-- What `__pthipth_aging` of src/pthipth_aging.c leaves alone.
use pthipth.Prelude.{
  ℕ, zero, suc, ◌+◌, ◌-◌, refl, true, false, Bool-cases, inl, inr, Option, none, some, ◌==◌, ltb,
}
use pthipth.Ready
use pthipth.Ready.{first}
use pthipth.World.{World, set_tcb, bq_reinsert, idle_priority}
use pthipth.World.Frame.{Rest, Where, Rest-self, Rest-trans, set_tcb-Rest, bq_reinsert-Rest}
use pthipth.Aging.{
  Run, done, fault, out_of_fuel, ◌>>=◌, aged_of, next, passes, remember, promote, Turn, ends,
  faults, goes_on, promoted, turn, age_bucket, skipped, age_from, age_queue, aging,
}

-- What holds of the state where a loop ends.
abbrev pub Ends : (World → Type 0) → Run World → Type 0
Ends P (done w) = P w
Ends P fault = Unit
Ends P out_of_fuel = Unit

module _ (now : ℕ) where
  remember-Rest : (n : ℕ) (w : World) → Rest w (remember now n w)
  unfolding remember
  remember-Rest n w = elim (Bool-cases (ltb (aged_of now (w.tcb n)) (w.tcb n).old_priority)) [
    | inl e ↦ rw e (set_tcb-Rest n _ w refl)
    | inr e ↦ rw e (Rest-self w)
  ]

  after-Rest : (w w' : World) (o : Option World) → Rest w w' → Where (Rest w') o → Where (Rest w) o
  after-Rest w w' none r q = tt
  after-Rest w w' (some w'') r q = Rest-trans w w' w'' r q

  promote-Rest : (n p : ℕ) (w : World) → Where (Rest w) (promote n p w)
  unfolding promote
  promote-Rest n p w =
      let w1 = set_tcb n (record (w.tcb n) { priority = p }) w in
      after-Rest w w1 (bq_reinsert n w1) (set_tcb-Rest n _ w refl) (bq_reinsert-Rest n w1)

  abbrev TurnRest : World → Turn → Type 0
  TurnRest w (ends w') = Rest w w'
  TurnRest w faults = Unit
  TurnRest w (goes_on n w') = Rest w w'

  promoted-Rest :
      (w : World) (head n : ℕ) (o : Option World)
      → Where (Rest w) o
      → TurnRest w (promoted head n o)
  promoted-Rest w head n none r = tt
  promoted-Rest w head n (some w') r = elim (Bool-cases (n == head)) [
    | inl e ↦ rw (e, TurnRest) r
    | inr e ↦ rw (e, TurnRest) r
  ]

  turn-Rest : (head n : ℕ) (w : World) → TurnRest w (turn now head n w)
  unfolding turn
  turn-Rest head n w = elim (Bool-cases (n == 0)) [
    | inl z ↦ rw (z, TurnRest) tt
    | inr z ↦ elim (Bool-cases (passes (w.tcb n))) [
      | inl e ↦ elim (Bool-cases (next w n == head)) [
        | inl l ↦ rw (z, e, l, TurnRest) (Rest-self w)
        | inr l ↦ rw (z, e, l, TurnRest) (Rest-self w)
      ]
      | inr e ↦ elim (Bool-cases (ltb (aged_of now (w.tcb n)) (w.tcb n).priority)) [
        | inl l ↦
            let w1 = remember now n w in
            rw (z, e, l)
              (promoted-Rest w head n (promote n (aged_of now (w.tcb n)) w1) (
                after-Rest w w1 (promote n (aged_of now (w.tcb n)) w1) (remember-Rest n w)
                  (promote-Rest n (aged_of now (w.tcb n)) w1)))
        | inr l ↦ elim (Bool-cases (n == head)) [
          | inl g ↦ rw (z, e, l, g, TurnRest) (remember-Rest n w)
          | inr g ↦ rw (z, e, l, g, TurnRest) (remember-Rest n w)
        ]
      ]
    ]
  ]

  Ends-trans : (w w' : World) (r : Run World) → Rest w w' → Ends (Rest w') r → Ends (Rest w) r
  Ends-trans w w' (done w'') a b = Rest-trans w w' w'' a b
  Ends-trans w w' fault a b = tt
  Ends-trans w w' out_of_fuel a b = tt

  Ends-bind :
      (w : World) (f : World → Run World)
      → ((w' : World) → Ends (Rest w') (f w'))
      → (r : Run World) → Ends (Rest w) r
      → Ends (Rest w) (r >>= f)
  Ends-bind w f k (done w') r = Ends-trans w w' (f w') r (k w')
  Ends-bind w f k fault r = tt
  Ends-bind w f k out_of_fuel r = tt

  then_bucket :
      (fuel head : ℕ)
      → ((n : ℕ) (w : World) → Ends (Rest w) (age_bucket fuel now head n w))
      → (w : World) (t : Turn) → TurnRest w t
      → Ends (Rest w) (elim t [
        | ends w' ↦ done w'
        | faults ↦ fault
        | goes_on cur' w' ↦ age_bucket fuel now head cur' w'
      ])
  then_bucket fuel head k w (ends w') t = t
  then_bucket fuel head k w faults t = tt
  then_bucket fuel head k w (goes_on n w') t =
      Ends-trans w w' (age_bucket fuel now head n w') t (k n w')

  age_bucket-Rest : (fuel head n : ℕ) (w : World) → Ends (Rest w) (age_bucket fuel now head n w)
  unfolding age_bucket
  age_bucket-Rest zero head n w = tt
  age_bucket-Rest (suc fuel) head n w =
      then_bucket fuel head (age_bucket-Rest fuel head) w (turn now head n w) (turn-Rest head n w)

  age_from-Rest : (fuel i count : ℕ) (w : World) → Ends (Rest w) (age_from fuel now i count w)
  unfolding age_from
  age_from-Rest fuel i zero w = Rest-self w
  age_from-Rest fuel i (suc count) w =
      Ends-bind w (age_from fuel now (i + 1) count) (age_from-Rest fuel (i + 1) count) _ (one w)
    where
      one :
          (w : World)
          → (let head = first (w.ready_queue.bucket i) in
              Ends
                (Rest w)
                (elim (skipped w head) [ true ↦ done w | false ↦ age_bucket fuel now head head w ]))
      one w =
          let head = first (w.ready_queue.bucket i) in
          elim (Bool-cases (skipped w head)) [
            | inl e ↦ rw e (Rest-self w)
            | inr e ↦ rw e (age_bucket-Rest fuel head head w)
          ]

  age_queue-Rest : (fuel : ℕ) (p : Option ℕ) (w : World) → Ends (Rest w) (age_queue fuel now p w)
  age_queue-Rest fuel none w = tt
  age_queue-Rest fuel (some p) w = age_from-Rest fuel p (idle_priority + 1 - p) w

  pub aging-Rest : (fuel : ℕ) (w : World) → Ends (Rest w) (aging fuel now w)
  unfolding aging
  aging-Rest fuel w = elim (Bool-cases (Ready.peek w.ready_queue == 0)) [
    | inl e ↦ rw e (Rest-self w)
    | inr e ↦ rw e (age_queue-Rest fuel (w.tcb (Ready.peek w.ready_queue)).cur_priority w)
  ]
