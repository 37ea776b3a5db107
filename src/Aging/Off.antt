-- ===== src/Aging/Off.antt =====
-- `__pthipth_aging` of src/pthipth_aging.c where no thread ages.
use pthipth.Prelude.{
  ℕ, zero, suc, ◌+◌, ◌-◌, ◌≤◌, ◌≡◌, refl, ap, subst, ◌∙◌, ◌⊎◌, inl, inr, true, false, List, [], ◌∷◌,
  ◌==◌, arith, Bool-cases, length,
}
use pthipth.Ready
use pthipth.Ready.{first}
use pthipth.World.{World, idle_priority}
use pthipth.World.Invariant.{Consistent, peek-real, peek-Head}
use pthipth.Aging.{done, passes, skipped, age_bucket, age_from, age_queue, aging}
use pthipth.Aging.Loop.{age_bucket-done}

List-cases : (xs : List ℕ) → (xs ≡ []) ⊎ ((x : ℕ) × (ys : List ℕ) × (xs ≡ x ∷ ys))
List-cases [] = inl refl
List-cases (x ∷ ys) = inr (x, ys, refl)

module _ (fuel now : ℕ) (w : World) (c : Consistent w)
    (long : (q : ℕ) → q ≤ idle_priority → length (w.ready_queue.bucket q) ≤ fuel)
    (off : (n : ℕ) → passes (w.tcb n) ≡ true) where
  age_bucket-off :
      (p : ℕ)
      → p ≤ idle_priority
      → skipped w (first (w.ready_queue.bucket p)) ≡ false
      → age_bucket fuel now (first (w.ready_queue.bucket p)) (first (w.ready_queue.bucket p)) w
        ≡ done w
  age_bucket-off p l s = elim (List-cases (w.ready_queue.bucket p)) [
    | inl e ↦ ground (arith, ap first e)
    | inr (x, ys, e) ↦
        ap (λ n. age_bucket fuel now (first (w.ready_queue.bucket p)) n w) (ap first e)
        ∙ age_bucket-done now p w c fuel x [] ys e (λ m h. off m)
            (subst (λ xs. length xs ≤ fuel) e (long p l))
  ]

  age_from-off :
      (i count : ℕ) → count ≤ idle_priority + 1 - i → age_from fuel now i count w ≡ done w
  unfolding age_from
  age_from-off i zero l = refl
  age_from-off i (suc count) l = elim (Bool-cases (skipped w (first (w.ready_queue.bucket i)))) [
    | inl e ↦ rw e (age_from-off (i + 1) count (omega arith))
    | inr e ↦ rw (e, age_bucket-off i (omega arith) e) (age_from-off (i + 1) count (omega arith))
  ]

  -- Where every thread runs or has no aging factor, `aging` ends and leaves everything as it is, if the
  -- fuel is at least the length of the longest bucket of the table.
  pub aging-off : aging fuel now w ≡ done w
  unfolding aging
  aging-off =
      let busy : (Ready.peek w.ready_queue == 0) ≡ false = ground (arith, peek-real w c) in
      let h = peek-Head w c in
      rw busy (
        ap (λ o. age_queue fuel now o w) h.cur_lem
        ∙ age_from-off h.priority (idle_priority + 1 - h.priority) (omega arith))
