-- ===== src/System/Kept.antt =====
-- The invariant of the whole library, and what keeps it: the moves between the queues of
-- src/pthipth_utils.c and src/pthipth_bq.c, writes to a thread control block, and loops of them.
use pthipth.Prelude.{
  ℕ, ◌<◌, ◌≡◌, ◌≢◌, refl, sym, ap, ◌∙◌, true, false, Bool-cases, inl, inr, Option, List, [], ◌∷◌,
  ◌==◌, arith, has, ==_iff,
}
use pthipth.Ready.{buckets_count}
use pthipth.World.{
  ThreadState, running, defunct, same_state, Tcb, World, set_tcb, bq_reinsert, change_to_state,
}
use pthipth.World.Invariant.{queued}
use pthipth.World.Moves.{Returns, Returns-mono}
use pthipth.World.State.{Allowed}
use pthipth.World.State.Reinsert.{bq_reinsert-Valid}
use pthipth.World.Valid.{
  Valid, Changed, Changed-self, Changed-other, change_to_state-Valid, set_tcb-Valid,
}
use pthipth.World.Each.{each, Returns-bind}
use pthipth.World.Frame.{Rest, Returns-Where, change_to_state-Rest, bq_reinsert-Rest}
use pthipth.Yield.Dispatch.{Changed-SameDead}
use pthipth.Yield.Files.{carry, dies, Rest-SameFiles}
use pthipth.Yield.Upkeep.{Upkept}

-- Neither ended nor running: where a call may put a thread.
abbrev pub AtRest : ThreadState → Type 0
AtRest s = (same_state s defunct ≡ false) × (same_state s running ≡ false)

module _ (idle node : ℕ) where
  module _ (w : World) (n : ℕ) where
    moved :
        (s : ThreadState) (w' : World)
        → same_state (w.tcb n).state defunct ≡ false
        → AtRest s
        → Upkept idle node w
        → (Valid idle w' × Changed w n s w') × Rest w w'
        → Upkept idle node w'
    moved s w' a b (k, o) (r, f) = (
      carry idle w w' r.0 (Rest-SameFiles w w' f) (dies w w' (Changed-SameDead w w' n s r.1 a b.0))
          k,
      λ m e. elim (Bool-cases (m == n)) [
        | inl q ↦
            let at : (w'.tcb n).state ≡ running =
              ap (λ n. (w'.tcb n).state) (sym ((==_iff m n).0 q)) ∙ e in
            let now : s ≡ running = sym (ap (λ t. t.state) (Changed-self w n s w' r.1)) ∙ at in
            let no = b.1 in let yes = ap (λ s. same_state s running) now in cc
        | inr q ↦ o m (sym (ap (λ t. t.state) (Changed-other w n s w' r.1 m (ground arith))) ∙ e)
      ],
    )

    -- A change of state.
    pub move-Upkept :
        (s : ThreadState)
        → n ≢ 0
        → same_state (w.tcb n).state defunct ≡ false
        → AtRest s
        → Allowed w n s
        → Upkept idle node w
        → Returns (Upkept idle node) (change_to_state n s w)
    move-Upkept s h a b l u =
        Returns-mono (λ w'. (Valid idle w' × Changed w n s w') × Rest w w') (Upkept idle node)
          (λ w' r. moved s w' a b u r) (change_to_state n s w)
          (Returns-Where (λ w'. Valid idle w' × Changed w n s w') (Rest w) (change_to_state n s w)
            (change_to_state-Valid idle w n h u.0.valid s l) (change_to_state-Rest n s w))

    -- A write to the fields of a thread that place it nowhere.
    pub write-Upkept :
        (t : Tcb)
        → t.state ≡ (w.tcb n).state
        → t.cur_priority ≡ (w.tcb n).cur_priority
        → t.tid ≡ (w.tcb n).tid
        → t.aging_factor ≡ (w.tcb n).aging_factor
        → t.priority < buckets_count
        → (n ≢ idle → t.priority ≢ 31)
        → Upkept idle node w
        → Upkept idle node (set_tcb n t w)
    write-Upkept t s c d f p i (k, o) = (
      carry idle w (set_tcb n t w) (set_tcb-Valid idle w n t k.valid s c p i)
          (refl, refl, (λ m. ground arith), λ m. ground arith) (λ m h. ground (arith, h)) k,
      λ m e. o m (ground (arith, e)),
    )

    -- The thread at the end of the bucket of its priority.
    pub reinsert-Upkept :
        n ≢ 0
        → n ≢ idle
        → queued (w.tcb n).state ≡ true
        → Upkept idle node w
        → Returns (Upkept idle node) (bq_reinsert n w)
    reinsert-Upkept h i q (k, o) =
        Returns-mono (λ w'. (Valid idle w' × Changed w n (w.tcb n).state w') × Rest w w')
          (Upkept idle node)
          (λ w' r.
            let same : (m : ℕ) → (w'.tcb m).state ≡ (w.tcb m).state =
              λ m. ground (arith, r.0.1.tcb_lem m) in
            (
              carry idle w w' r.0.0 (Rest-SameFiles w w' r.1)
                  (dies w w' (λ m. ap (λ s. same_state s defunct) (same m))) k,
              λ m e. o m (sym (same m) ∙ e),
            ))
          (bq_reinsert n w)
          (Returns-Where (λ w'. Valid idle w' × Changed w n (w.tcb n).state w') (Rest w)
            (bq_reinsert n w) (bq_reinsert-Valid idle w n h i k.valid q) (bq_reinsert-Rest n w))

  -- A loop over threads.
  pub each-Upkept :
      (body : ℕ → World → Option World)
      → ((n : ℕ) (w : World) → n ≢ 0 → Upkept idle node w → Returns (Upkept idle node) (body n w))
      → (ns : List ℕ) → ((m : ℕ) → has m ns ≡ true → m ≢ 0)
      → (w : World) → Upkept idle node w
      → Returns (Upkept idle node) (each body ns w)
  unfolding each
  each-Upkept body k [] a w u = u
  each-Upkept body k (n ∷ ns) a w u =
      Returns-bind (Upkept idle node) (Upkept idle node) (each body ns)
        (each-Upkept body k ns (λ m h. a m (ground arith))) (body n w)
        (k n w (a n (ground arith)) u)
