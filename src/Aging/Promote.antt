-- ===== src/Aging/Promote.antt =====
-- The threads that age still do, after src/pthipth_aging.c has given them another priority.
use pthipth.Prelude.{
  ℕ, ◌≡◌, inl, inr, false, Option, none, some, ◌==◌, arith, Bool-cases, ◌>>=◌, ltb,
}
use pthipth.Ready
use pthipth.Ready.{lowest, buckets_count}
use pthipth.World.{
  is_some, set_tcb, World, bq_insert, bq_remove, bq_delete_at, bq_delete, bq_reinsert,
}
use pthipth.Aging.{passes, promote}

module _ (cur : ℕ) where
  -- The thread still ages, where the code goes on.
  abbrev pub Ages : Option World → Type 0
  Ages none = Unit
  Ages (some w) = passes (w.tcb cur) ≡ false

  insert-Ages : (w : World) → passes (w.tcb cur) ≡ false → Ages (bq_insert cur w)
  unfolding bq_insert
  insert-Ages w a = elim (Bool-cases (ltb (w.tcb cur).priority buckets_count)) [
    | inl e ↦ rw e (ground arith)
    | inr e ↦ rw e tt
  ]

  delete_at-Ages :
      (w : World) (p : Option ℕ) → passes (w.tcb cur) ≡ false → Ages (bq_delete_at cur p w)
  unfolding bq_delete_at bq_remove
  delete_at-Ages w none a = a
  delete_at-Ages w (some p) a =
      elim (Bool-cases (is_some (lowest (bq_remove cur p w).ready_queue.bits))) [
        | inl e ↦ rw e (ground arith)
        | inr e ↦ rw e tt
      ]

  delete-Ages : (w : World) → passes (w.tcb cur) ≡ false → Ages (bq_delete cur w)
  unfolding bq_delete
  delete-Ages w a = elim (Bool-cases (Ready.peek w.ready_queue == 0)) [
    | inl e ↦ rw e a
    | inr e ↦ rw e (delete_at-Ages w (w.tcb cur).cur_priority a)
  ]

  then-Ages : (o : Option World) → Ages o → Ages (o >>= bq_insert cur)
  then-Ages none a = tt
  then-Ages (some w) a = insert-Ages w a

  pub promote-Ages : (p : ℕ) (w : World) → passes (w.tcb cur) ≡ false → Ages (promote cur p w)
  unfolding promote bq_reinsert
  promote-Ages p w a =
      then-Ages _ (delete-Ages (set_tcb cur (record (w.tcb cur) { priority = p }) w) (ground arith))
