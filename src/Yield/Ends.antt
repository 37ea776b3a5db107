-- ===== src/Yield/Ends.antt =====
-- When `__pthipth_dispatcher` of src/pthipth_yield.c ends.
use pthipth.Prelude.{
  ℕ, zero, inl, inr, Bool-cases, ◌==◌, ==_iff, suc, ◌<◌, ◌≤◌, ◌+◌, ◌≡◌, ap, subst, sym, ◌∙◌, max,
  true, Option, none, some, List, length, arith, ℤ,
}
use pthipth.World.{World, Tcb, idle_priority}
use pthipth.World.Moves.{Returns}
use pthipth.World.Frame.{Rest, Where, Returns-Where}
use pthipth.Sleep.{check_sleeping}
use pthipth.Sleep.Frame.{check_sleeping-Rest}
use pthipth.Aging.{Run, run, ◌>>=◌, passes, aging}
use pthipth.Aging.Off.{aging-off}
use pthipth.Yield.{check_detach, choose, dispatcher}
use pthipth.Yield.Files.{KeptUp}
use pthipth.Yield.Upkeep.{Only, Settled, Upkept, slept-Upkept, sweep-Settled}

-- The length of the longest of the first buckets.
abbrev longest : (ℕ → List ℕ) → ℕ → ℕ
longest bucket zero = 0
longest bucket (suc n) = max (length (bucket n)) (longest bucket n)

longest-le : (bucket : ℕ → List ℕ) (n q : ℕ) → q < n → length (bucket q) ≤ longest bucket n
longest-le bucket zero q l = omega arith
longest-le bucket (suc n) q l = elim (Bool-cases (q == n)) [
  | inl e ↦
      let same : length (bucket q) ≡ length (bucket n) =
        ap (λ q. length (bucket q)) ((==_iff q n).0 e) in
      omega arith
  | inr e ↦
      let less : length (bucket q) ≤ longest bucket n = longest-le bucket n q (ground arith) in
      omega arith
]

-- No thread has an aging factor.
abbrev pub NoAging : World → Type 0
NoAging w = (n : ℕ) → (w.tcb n).aging_factor ≡ 0

passes-off : (t : Tcb) → t.aging_factor ≡ 0 → passes t ≡ true
passes-off t e = ground (arith, e)

module _ (idle node t_sleep t_aging t_select : ℕ) where
  abbrev rest : ℕ → World → Run (World × ℤ)
  rest fuel w =
      aging fuel t_aging w >>= λ w. run (check_detach node w) >>= λ w. choose t_select node w

  aged-Settled :
      (fuel : ℕ) (w : World)
      → Upkept idle node w
      → NoAging w
      → longest w.ready_queue.bucket (idle_priority + 1) ≤ fuel
      → Settled idle node (rest fuel w)
  aged-Settled fuel w (k, o) a l =
      subst
        (λ r.
          Settled idle node (r >>= λ w. run (check_detach node w) >>= λ w. choose t_select node w))
        (sym (
          aging-off fuel t_aging w k.valid.consistent
            (λ q i.
              let le : length (w.ready_queue.bucket q)
                  ≤ longest w.ready_queue.bucket (idle_priority + 1) =
                longest-le w.ready_queue.bucket (idle_priority + 1) q (omega (arith, i)) in
              omega arith)
            (λ n. passes-off (w.tcb n) (a n))))
        (sweep-Settled idle node t_select w k o)

  enough :
      (o : Option World)
      → Returns (λ w. Upkept idle node w × NoAging w) o
      → (bound : ℕ) × ((fuel : ℕ) → bound ≤ fuel → Settled idle node (run o >>= rest fuel))
  enough none r = elim r [ ]
  enough (some w) (u, a) =
      (longest w.ready_queue.bucket (idle_priority + 1), λ fuel l. aged-Settled fuel w u a l)

  Rest-NoAging : (w w' : World) → NoAging w → Rest w w' → NoAging w'
  Rest-NoAging w w' a r n = ap (λ t. t.aging_factor) (r.3 n) ∙ a n

  slept-NoAging : (w : World) (o : Option World) → NoAging w → Where (Rest w) o → Where NoAging o
  slept-NoAging w none a r = tt
  slept-NoAging w (some w') a r = Rest-NoAging w w' a r

  -- From a state that keeps the invariant of the scheduler, in which the tree is balanced and sorted and
  -- has the detached threads, no thread has an aging factor, and none but the caller runs, there is a
  -- fuel from which on the whole dispatcher ends; it has kept the invariant and the tree, and exactly one
  -- thread runs: the caller, and the result is -1, or another one, which is the current one and is woken
  -- up, and the result is 0.
  pub dispatcher-Settled :
      (w : World)
      → KeptUp idle w
      → Only w node
      → NoAging w
      → (bound : ℕ) × ((fuel : ℕ)
          → bound ≤ fuel
          → Settled idle node (dispatcher fuel t_sleep t_aging t_select node w))
  unfolding dispatcher
  dispatcher-Settled w k o a = enough (check_sleeping t_sleep w) (
      Returns-Where (Upkept idle node) NoAging (check_sleeping t_sleep w)
        (slept-Upkept idle node t_sleep w (k, o))
        (slept-NoAging w (check_sleeping t_sleep w) a (check_sleeping-Rest t_sleep w)))
