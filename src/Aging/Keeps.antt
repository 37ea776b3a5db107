-- ===== src/Aging/Keeps.antt =====
-- What `__pthipth_aging` of src/pthipth_aging.c keeps, for as long as it runs.
use pthipth.Prelude.{
  ℕ, zero, suc, ◌+◌, ◌-◌, ◌≡◌, ◌≢◌, sym, ap, ◌∙◌, subst, inl, inr, true, false, Option, none, some,
  List, ◌==◌, ltb, arith, Bool-cases, has,
}
use pthipth.Ready
use pthipth.Ready.{first, buckets_count}
use pthipth.World.{World, idle_priority}
use pthipth.World.Invariant.{peek-real, peek-Head, has-first}
use pthipth.World.Moves.{Returns, Returns-mono}
use pthipth.World.Valid.{Valid}
use pthipth.Aging.{
  Run, done, fault, out_of_fuel, ◌>>=◌, aged_of, next, passes, remember, promote, Turn, ends,
  faults, goes_on, promoted, turn, age_bucket, skipped, age_from, age_queue, aging,
}
use pthipth.Aging.Kept.{
  Here, Kept, Kept-self, Kept-trans, Kept-Here, bucket-Here, next-Here, remember-Kept, promote-Kept,
}

module _ (idle now : ℕ) where
  -- What a turn leaves: it does not fault, and it goes on at a thread that stands in a bucket.
  abbrev Turned : World → Turn → Type 0
  Turned w (ends w') = Kept idle w w'
  Turned w faults = ⊥
  Turned w (goes_on n w') = Kept idle w w' × Here w' n

  promoted-Turned :
      (w : World) (head n : ℕ) (o : Option World)
      → Here w n
      → Returns (Kept idle w) o
      → Turned w (promoted head n o)
  promoted-Turned w head n none h r = elim r [ ]
  promoted-Turned w head n (some w') h r = elim (Bool-cases (n == head)) [
    | inl e ↦ rw (e, Turned) r
    | inr e ↦ rw (e, Turned) (r, Kept-Here idle w w' n r h)
  ]

  turn-Turned :
      (w : World) (head n : ℕ)
      → Valid idle w
      → Here w n
      → passes (w.tcb idle) ≡ true
      → Turned w (turn now head n w)
  unfolding turn
  turn-Turned w head n v h a =
      let real : (n == 0) ≡ false = ground (arith, h.0) in
      elim (Bool-cases (passes (w.tcb n))) [
        | inl e ↦ elim (Bool-cases (next w n == head)) [
          | inl l ↦ rw (real, e, l, Turned) (Kept-self idle w v)
          | inr l ↦ rw (real, e, l, Turned) (Kept-self idle w v, next-Here idle w v n h)
        ]
        | inr e ↦
            let i : n ≢ idle = λ q. ground (arith, ap (λ k. passes (w.tcb k)) q) in
            let k = remember-Kept idle w v now n i in
            elim (Bool-cases (ltb (aged_of now (w.tcb n)) (w.tcb n).priority)) [
              | inl l ↦
                  rw (real, e, l)
                    (promoted-Turned w head n _ h (
                      Returns-mono (Kept idle (remember now n w)) (Kept idle w)
                        (λ w' r. Kept-trans idle w (remember now n w) w' k r)
                        (promote n (aged_of now (w.tcb n)) (remember now n w))
                        (promote-Kept idle (remember now n w) n (aged_of now (w.tcb n)) k.0 i
                          (Kept-Here idle w (remember now n w) n k h)
                          (ground (arith, v.priority_lem n)))))
              | inr l ↦ elim (Bool-cases (n == head)) [
                | inl g ↦ rw (real, e, l, g, Turned) k
                | inr g ↦ rw (real, e, l, g, Turned) (k, Kept-Here idle w (remember now n w) n k h)
              ]
            ]
      ]

  -- What a loop leaves: it does not fault.
  abbrev pub Aged : World → Run World → Type 0
  Aged w (done w') = Kept idle w w'
  Aged w fault = ⊥
  Aged w out_of_fuel = Unit

  Aged-trans : (w w' : World) (r : Run World) → Kept idle w w' → Aged w' r → Aged w r
  Aged-trans w w' (done w'') k a = Kept-trans idle w w' w'' k a
  Aged-trans w w' fault k a = a
  Aged-trans w w' out_of_fuel k a = tt

  then_bucket :
      (fuel head : ℕ)
      → ((w : World) (n : ℕ)
          → Valid idle w
          → Here w n
          → passes (w.tcb idle) ≡ true
          → Aged w (age_bucket fuel now head n w))
      → (w : World) (t : Turn) → passes (w.tcb idle) ≡ true
      → Turned w t
      → Aged w (elim t [
        | ends w' ↦ done w'
        | faults ↦ fault
        | goes_on cur' w' ↦ age_bucket fuel now head cur' w'
      ])
  then_bucket fuel head k w (ends w') a t = t
  then_bucket fuel head k w faults a t = t
  then_bucket fuel head k w (goes_on n w') a t =
      Aged-trans w w' (age_bucket fuel now head n w') t.0 (k w' n t.0.0 t.1 (ap passes t.0.2 ∙ a))

  age_bucket-Aged :
      (fuel head : ℕ) (w : World) (n : ℕ)
      → Valid idle w
      → Here w n
      → passes (w.tcb idle) ≡ true
      → Aged w (age_bucket fuel now head n w)
  unfolding age_bucket
  age_bucket-Aged zero head w n v h a = tt
  age_bucket-Aged (suc fuel) head w n v h a =
      then_bucket fuel head (age_bucket-Aged fuel head) w (turn now head n w) a
        (turn-Turned w head n v h a)

  then_Aged :
      (w : World) (f : World → Run World)
      → ((w' : World) → Valid idle w' → passes (w'.tcb idle) ≡ true → Aged w' (f w'))
      → passes (w.tcb idle) ≡ true
      → (r : Run World) → Aged w r
      → Aged w (r >>= f)
  then_Aged w f k a (done w') r = Aged-trans w w' (f w') r (k w' r.0 (ap passes r.2 ∙ a))
  then_Aged w f k a fault r = r
  then_Aged w f k a out_of_fuel r = tt

  first-has : (xs : List ℕ) → first xs ≢ 0 → has (first xs) xs ≡ true
  first-has xs h = has-first xs (λ e. h (ap first e))

  one-Aged :
      (fuel i : ℕ) (w : World)
      → Valid idle w
      → passes (w.tcb idle) ≡ true
      → (let head = first (w.ready_queue.bucket i) in
          Aged w
            (elim (skipped w head) [ true ↦ done w | false ↦ age_bucket fuel now head head w ]))
  one-Aged fuel i w v a = elim (Bool-cases (skipped w (first (w.ready_queue.bucket i)))) [
    | inl e ↦ rw e (Kept-self idle w v)
    | inr e ↦
        let head = first (w.ready_queue.bucket i) in
        rw e (
          age_bucket-Aged fuel head w head v
            (bucket-Here idle w v head i (first-has (w.ready_queue.bucket i) (ground arith))) a)
  ]

  age_from-Aged :
      (fuel i count : ℕ) (w : World)
      → Valid idle w
      → passes (w.tcb idle) ≡ true
      → Aged w (age_from fuel now i count w)
  unfolding age_from
  age_from-Aged fuel i zero w v a = Kept-self idle w v
  age_from-Aged fuel i (suc count) w v a =
      then_Aged w (age_from fuel now (i + 1) count) (age_from-Aged fuel (i + 1) count) a _
        (one-Aged fuel i w v a)

  -- Whatever the fuel, `aging` does not fault, if the idle thread does not age; where it ends, it has
  -- kept the invariant of the scheduler, the state of every thread, and the idle thread.
  pub aging-Aged :
      (fuel : ℕ) (w : World) → Valid idle w → passes (w.tcb idle) ≡ true → Aged w (aging fuel now w)
  unfolding aging
  aging-Aged fuel w v a =
      let busy : (Ready.peek w.ready_queue == 0) ≡ false =
        ground (arith, peek-real w v.consistent) in
      let h = peek-Head w v.consistent in
      rw busy (
        subst (λ o. Aged w (age_queue fuel now o w)) (sym h.cur_lem)
          (age_from-Aged fuel h.priority (idle_priority + 1 - h.priority) w v a))
