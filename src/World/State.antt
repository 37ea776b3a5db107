-- ===== src/World/State.antt =====
-- `__pthipth_change_to_state` of src/pthipth_utils.c keeps every thread in the queue of its state.
pub mod Reinsert
use pthipth.Prelude.{
  ℕ, ◌<◌, ◌≡◌, ◌≢◌, refl, sym, ◌⊎◌, Bool, true, false, Option, none, some, List, [], ◌∷◌, ◌++◌,
  ◌==◌, ◌&&◌, if◌then◌else◌, has, Distinct, arith, has-append, has-erase, erase, erase-Distinct,
  append-Distinct, lt→ltb, Option-cases, Bool-cases, inl, inr, subst, ap, ◌∙◌, ◌>>=◌,
}
use pthipth.Ready
use pthipth.Ready.{Ready, put, buckets_count}
use pthipth.Ready.Shown.{Shown, insert-Shown, delete-Shown, insert-bits, delete-bits}
use pthipth.World.{
  ThreadState, ready, running, blocked, sleeping, defunct, same_state, Tcb, World, is_some, set_tcb,
  bq_insert, bq_remove, bq_delete, leave, enter, set_state, change_to_state,
}
use pthipth.World.Invariant.{Consistent, queued, at_bucket, bq_delete-remove, peek-real}
use pthipth.World.Moves.{
  Now, Now-erase, Now-append, appended, Now-same, Moves, Moves-Consistent, queued-blocked,
  queued-sleeping, Returns, same_state-eq, Returns-mono,
}
use pthipth.World.Moves.Places.{
  remove-bucket, insert-bucket, same-bucket, blocked-out, sleeping-out, not-running, idle-bucket,
  bq_delete-same, from_queue, from_elsewhere, stays,
}

not-queued : {b : Bool} → b ≡ false → b ≡ true → ⊥
not-queued e f = cc

-- What the callers of `__pthipth_change_to_state` see to.
abbrev pub Allowed : World → ℕ → ThreadState → Type 0
Allowed w n ready = (w.tcb n).priority < buckets_count
Allowed w n running = queued (w.tcb n).state ≡ true
Allowed w n _ = (w.tcb n).cur_priority ≢ some 31

module _ (w : World) (n : ℕ) (h : n ≢ 0) (c : Consistent w) where
  cur-none : queued (w.tcb n).state ≡ false → (w.tcb n).cur_priority ≡ none
  cur-none q = elim (Option-cases (w.tcb n).cur_priority) [
    | inl e ↦ e
    | inr (p, e) ↦ ground (arith, c.queued_lem n)
  ]

  pub cur-some : queued (w.tcb n).state ≡ true → (p : ℕ) × ((w.tcb n).cur_priority ≡ some p)
  cur-some q = elim (Option-cases (w.tcb n).cur_priority) [
    | inl e ↦ ground (arith, c.queued_lem n)
    | inr (p, e) ↦ (p, e)
  ]

  out_of_queue :
      (s : ThreadState)
      → queued (w.tcb n).state ≡ true
      → queued s ≡ false
      → (w.tcb n).cur_priority ≢ some 31
      → Returns (Moves w n s) (enter n s w >>= λ w'. some (set_state n s w'))
  out_of_queue s o q l =
      let (p, e) = cur-some o in
      from_queue w n h c s p e (λ i. l (e ∙ ap some i)) (blocked-out w n h c o)
        (sleeping-out w n h c o) q

  from_other :
      (bs ss : List ℕ)
      → Now n false w.blocked_state bs
      → Now n false w.sleeping_state ss
      → (s : ThreadState) → queued (w.tcb n).state ≡ false
      → Allowed w n s
      → Returns (Moves w n s) (
          enter n s (record w { blocked_state = bs; sleeping_state = ss }) >>= λ w'.
          some (set_state n s w'))
  from_other bs ss b t s q a =
      from_elsewhere w n h c bs ss b t s (cur-none q) (λ i. subst (Allowed w n) i a)
        (λ i. not-queued q (subst (Allowed w n) i a))

  moved :
      (o s : ThreadState)
      → (w.tcb n).state ≡ o
      → same_state o s ≡ false
      → Allowed w n s
      → Returns (Moves w n s) (enter n s (leave n o w) >>= λ w'. some (set_state n s w'))
  unfolding leave enter
  moved blocked s e d a =
      from_other (erase n w.blocked_state) w.sleeping_state
        (Now-erase n w.blocked_state c.blocked_Distinct)
        (Now-same n false w.sleeping_state (c.sleeping_lem n ∙ ap (λ o. same_state o sleeping) e)
          c.sleeping_Distinct)
        s (ap queued e) a
  moved sleeping s e d a =
      from_other w.blocked_state (erase n w.sleeping_state)
        (Now-same n false w.blocked_state (c.blocked_lem n ∙ ap (λ o. same_state o blocked) e)
          c.blocked_Distinct)
        (Now-erase n w.sleeping_state c.sleeping_Distinct) s (ap queued e) a
  moved defunct s e d a =
      from_other w.blocked_state w.sleeping_state
        (Now-same n false w.blocked_state (c.blocked_lem n ∙ ap (λ o. same_state o blocked) e)
          c.blocked_Distinct)
        (Now-same n false w.sleeping_state (c.sleeping_lem n ∙ ap (λ o. same_state o sleeping) e)
          c.sleeping_Distinct)
        s (ap queued e) a
  moved ready blocked e d a = out_of_queue blocked (ap queued e) refl a
  moved ready sleeping e d a = out_of_queue sleeping (ap queued e) refl a
  moved ready defunct e d a = out_of_queue defunct (ap queued e) refl a
  moved ready running e d a = stays w n h c running (ap queued e) refl
  moved ready ready e d a = cc
  moved running blocked e d a = out_of_queue blocked (ap queued e) refl a
  moved running sleeping e d a = out_of_queue sleeping (ap queued e) refl a
  moved running defunct e d a = out_of_queue defunct (ap queued e) refl a
  moved running ready e d a = rw e (stays w n h c ready (ap queued e) refl)
  moved running running e d a = cc

  pub change_to_state-Moves :
      (s : ThreadState)
      → same_state (w.tcb n).state s ≡ false
      → Allowed w n s
      → Returns (Moves w n s) (change_to_state n s w)
  unfolding change_to_state
  change_to_state-Moves s e a = rw e (moved (w.tcb n).state s refl e a)

  -- `__pthipth_change_to_state` returns, the thread is in the new state, and every thread is in the
  -- queue of its state, if that was so before, the thread is not NULL, and: it has a priority of the
  -- table, for READY; it is queued, for RUNNING; it does not stand in the bucket of the idle thread, for
  -- the others.
  pub change_to_state-Consistent :
      (s : ThreadState)
      → Allowed w n s
      → Returns (λ w'. Consistent w' × ((w'.tcb n).state ≡ s)) (change_to_state n s w)
  unfolding change_to_state
  change_to_state-Consistent s a = elim (Bool-cases (same_state (w.tcb n).state s)) [
    | inl e ↦ rw e (c, same_state-eq (w.tcb n).state s e)
    | inr e ↦ Returns-mono _ _ (λ w'. Moves-Consistent w n s w' h c) _ (change_to_state-Moves s e a)
  ]
