-- ===== src/World/Each.antt =====
-- The loops over a state queue of src/pthipth_cond.c, src/pthipth_barrier.c, src/pthipth_sleep.c and
-- src/pthipth_detach.c. They read `next2` before the body runs, and a body takes no other node out of
-- the queue than its own, so each goes over the list as it was at the start.
use pthipth.Prelude.{
  ℕ, ◌≡◌, ◌≢◌, refl, sym, subst, ◌∙◌, inl, inr, Bool-cases, ==_iff, true, false, Option, none, some,
  List, [], ◌∷◌, ◌==◌, has, Distinct, arith, ◌>>=◌,
}
use pthipth.World.{Tcb, World}
use pthipth.World.Moves.{Returns, Returns-mono}

unfoldable pub each : (ℕ → World → Option World) → List ℕ → World → Option World
each body [] w = some w
each body (n ∷ ns) w = body n w >>= each body ns

pub Returns-bind :
    (P Q : World → Type 0) (f : World → Option World)
    → ((w : World) → P w → Returns Q (f w))
    → (o : Option World) → Returns P o
    → Returns Q (o >>= f)
Returns-bind P Q f k none r = elim r [ ]
Returns-bind P Q f k (some w) r = k w r

-- What a body does to the thread of its turn, and that it does nothing to the others.
abbrev pub Turn : (World → Type 0) → (ℕ → Tcb → Tcb → Type 0) → World → ℕ → World → Type 0
Turn P R w n w' = P w' × R n (w.tcb n) (w'.tcb n) × ((m : ℕ) → m ≢ n → w'.tcb m ≡ w.tcb m)

abbrev pub Round : (World → Type 0) → (ℕ → Tcb → Tcb → Type 0) → World → List ℕ → World → Type 0
Round P R w ns w' =
    P w'
    × ((m : ℕ) → has m ns ≡ true → R m (w.tcb m) (w'.tcb m))
    × ((m : ℕ) → has m ns ≡ false → w'.tcb m ≡ w.tcb m)

module _ (P : World → Type 0) (R : ℕ → Tcb → Tcb → Type 0) (body : ℕ → World → Option World)
    (Real : ℕ → Type 0)
    (step : (w : World) (n : ℕ) → Real n → P w → Returns (Turn P R w n) (body n w)) where
  join :
      (n : ℕ) (ns : List ℕ) (w w' w'' : World)
      → Distinct (n ∷ ns)
      → Turn P R w n w'
      → Round P R w' ns w''
      → Round P R w (n ∷ ns) w''
  join n ns w w' w'' d t r = (r.0, seen, λ m h. r.2 m (ground arith) ∙ t.2 m (ground arith))
    where
      seen : (m : ℕ) → has m (n ∷ ns) ≡ true → R m (w.tcb m) (w''.tcb m)
      seen m h = elim (Bool-cases (m == n)) [
        | inl e ↦
            let i : n ≡ m = sym ((==_iff m n).0 e) in
            subst (λ k. R k (w.tcb k) (w''.tcb k)) i (subst (R n (w.tcb n)) (sym (r.2 n d.0)) t.1)
        | inr e ↦ subst (λ x. R m x (w''.tcb m)) (t.2 m (ground arith)) (r.1 m (ground arith))
      ]

  pub each-Round :
      (ns : List ℕ) (w : World)
      → ((m : ℕ) → has m ns ≡ true → Real m)
      → Distinct ns
      → P w
      → Returns (Round P R w ns) (each body ns w)
  unfolding each
  each-Round [] w a d p = (p, (λ m h. cc), λ m h. refl)
  each-Round (n ∷ ns) w a d p =
      Returns-bind (Turn P R w n) (Round P R w (n ∷ ns)) (each body ns)
        (λ w' t.
          Returns-mono _ _ (λ w'' r. join n ns w w' w'' d t r) _
            (each-Round ns w' (λ m h. a m (ground arith)) d.1 t.0))
        _ (step w n (a n (ground arith)) p)
