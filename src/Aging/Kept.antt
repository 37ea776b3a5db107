-- ===== src/Aging/Kept.antt =====
-- What one promotion of src/pthipth_aging.c keeps.
use pthipth.Prelude.{
  ℕ, ◌<◌, ◌≡◌, ◌≢◌, refl, sym, ap, ◌∙◌, ◌⊎◌, inl, inr, true, List, [], ◌∷◌, ◌==◌, ltb, arith,
  Bool-cases, has,
}
use pthipth.Ready.{first}
use pthipth.World.{World, Tcb, set_tcb, bq_reinsert}
use pthipth.World.Invariant.{queued}
use pthipth.World.Moves.{Returns, Returns-mono}
use pthipth.World.Valid.{Valid, Changed, Changed-other, set_tcb-Valid}
use pthipth.World.State.{cur-some}
use pthipth.World.State.Reinsert.{bq_reinsert-Valid}
use pthipth.Aging.{aged_of, next_in, next, next_at, remember, promote}

next_in-has :
    (head n : ℕ) (xs : List ℕ)
    → has n xs ≡ true
    → (next_in head n xs ≡ head) ⊎ (has (next_in head n xs) xs ≡ true)
unfolding next_in
next_in-has head n [] i = cc
next_in-has head n (x ∷ []) i = inl (ground arith)
next_in-has head n (x ∷ y ∷ ys) i = elim (Bool-cases (x == n)) [
  | inl e ↦ inr (ground arith)
  | inr e ↦ elim (next_in-has head n (y ∷ ys) (ground arith)) [
    | inl q ↦ inl (rw e q)
    | inr q ↦ inr (ground arith)
  ]
]

some-filled : (n : ℕ) (xs : List ℕ) → has n xs ≡ true → has (first xs) xs ≡ true
some-filled n [] h = h
some-filled n (x ∷ xs) h = ground arith

next-filled : (n : ℕ) (xs : List ℕ) → has n xs ≡ true → has (next_in (first xs) n xs) xs ≡ true
next-filled n xs h = elim (next_in-has (first xs) n xs h) [
  | inl e ↦ ap (λ k. has k xs) e ∙ some-filled n xs h
  | inr e ↦ e
]

-- The thread stands in a bucket.
abbrev pub Here : World → ℕ → Type 0
Here w n = (n ≢ 0) × (queued (w.tcb n).state ≡ true)

module _ (idle : ℕ) where
  -- What a part of the aging leaves: the states of the threads, and the idle thread, are as they were.
  abbrev pub Kept : World → World → Type 0
  Kept w w' =
      Valid idle w' × ((m : ℕ) → (w'.tcb m).state ≡ (w.tcb m).state) × (w'.tcb idle ≡ w.tcb idle)

  pub Kept-self : (w : World) → Valid idle w → Kept w w
  Kept-self w v = (v, (λ m. refl), refl)

  pub Kept-trans : (w w' w'' : World) → Kept w w' → Kept w' w'' → Kept w w''
  Kept-trans w w' w'' a b = (b.0, (λ m. b.1 m ∙ a.1 m), b.2 ∙ a.2)

  pub Kept-Here : (w w' : World) (n : ℕ) → Kept w w' → Here w n → Here w' n
  Kept-Here w w' n k h = (h.0, ap queued (k.1 n) ∙ h.1)

  module _ (w : World) (v : Valid idle w) where
    pub bucket-Here : (n p : ℕ) → has n (w.ready_queue.bucket p) ≡ true → Here w n
    bucket-Here n p h = (
      (λ z.
          ground
            (arith, v.consistent.bucket_lem n p, v.consistent.queued_lem n, v.consistent.null_lem)),
      ground (arith, v.consistent.bucket_lem n p, v.consistent.queued_lem n),
    )

    pub next-Here : (n : ℕ) → Here w n → Here w (next w n)
    next-Here n h =
        let (p, e) = cur-some w n h.0 v.consistent h.1 in
        let b = w.ready_queue.bucket p in
        let i : has n b ≡ true = ground (arith, v.consistent.bucket_lem n p) in
        bucket-Here (next w n) p (ap (λ k. has k b) (ap (next_at w n) e) ∙ next-filled n b i)

    write-Kept :
        (n : ℕ) (t : Tcb)
        → n ≢ idle
        → t.state ≡ (w.tcb n).state
        → t.cur_priority ≡ (w.tcb n).cur_priority
        → t.priority < 31
        → Kept w (set_tcb n t w)
    write-Kept n t i s c p = (
      set_tcb-Valid idle w n t v s c (omega (arith, p)) (λ j. omega (arith, p)),
      (λ m. ground arith),
      ground arith,
    )

    pub remember-Kept : (now n : ℕ) → n ≢ idle → Kept w (remember now n w)
    unfolding remember
    remember-Kept now n i = elim (Bool-cases (ltb (aged_of now (w.tcb n)) (w.tcb n).old_priority)) [
      | inl e ↦
          rw e (write-Kept n _ i refl refl (omega (arith, v.priority_lem n, v.below_idle n i)))
      | inr e ↦ rw e (Kept-self w v)
    ]

    reinsert-Kept : (n : ℕ) → n ≢ idle → Here w n → Returns (Kept w) (bq_reinsert n w)
    reinsert-Kept n i h =
        Returns-mono (λ w'. Valid idle w' × Changed w n (w.tcb n).state w') (Kept w)
          (λ w' r. (
            r.0,
            (λ m. ground (arith, r.1.tcb_lem m)),
            Changed-other w n _ w' r.1 idle (λ e. i (sym e)),
          ))
          (bq_reinsert n w) (bq_reinsert-Valid idle w n h.0 i v h.1)

  pub promote-Kept :
      (w : World) (n p : ℕ)
      → Valid idle w
      → n ≢ idle
      → Here w n
      → p < 31
      → Returns (Kept w) (promote n p w)
  unfolding promote
  promote-Kept w n p v i h l =
      let t = record (w.tcb n) { priority = p } in
      let k = write-Kept w v n t i refl refl l in
      Returns-mono (Kept (set_tcb n t w)) (Kept w) (λ w' r. Kept-trans w (set_tcb n t w) w' k r)
        (bq_reinsert n (set_tcb n t w))
        (reinsert-Kept (set_tcb n t w) k.0 n i (Kept-Here w (set_tcb n t w) n k h))
