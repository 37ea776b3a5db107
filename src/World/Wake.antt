-- ===== src/World/Wake.antt =====
-- The loops that wake the threads of a state queue that pass a test.
use pthipth.Prelude.{
  ℕ, ◌≡◌, ◌≢◌, refl, Bool, true, false, Option, some, List, arith, Bool-cases, inl, inr, has,
  Distinct,
}
use pthipth.World.{World, Tcb, ready, change_to_state}
use pthipth.World.Moves.{Returns, Returns-mono}
use pthipth.World.Valid.{Valid, Changed, change_to_state-Valid, Changed-self, Changed-other}
use pthipth.World.Each.{each, Turn, Round, each-Round}

-- A thread that passed the test is ready, with its condition variable as `clear` leaves it and its
-- priority as it was; every other thread is as it was.
abbrev pub Woken : (clear : ℕ → ℕ) (wakes : Bool) → Tcb → Tcb → Type 0
Woken clear true t t' =
    (t'.state ≡ ready)
    × (t'.priority ≡ t.priority)
    × (t'.current_cond ≡ clear t.current_cond)
    × (t'.wake_time ≡ t.wake_time)
Woken clear false t t' = t' ≡ t

-- What a pass over the threads leaves behind.
abbrev pub Awake : (idle : ℕ) (clear : ℕ → ℕ) (test : Tcb → Bool) → World → World → Type 0
Awake idle clear test w w' =
    Valid idle w' × ((n : ℕ) → Woken clear (test (w.tcb n)) (w.tcb n) (w'.tcb n))

abbrev pub same : ℕ → ℕ
same c = c

module _ (idle : ℕ) (clear : ℕ → ℕ) (test : Tcb → Bool) (body : ℕ → World → Option World) where
  abbrev pub Wakes : World → ℕ → World → Type 0
  Wakes w n w' = Turn (Valid idle) (λ _ t t'. Woken clear (test t) t t') w n w'

  abbrev pub Steps : Type 0
  Steps = (w : World) (n : ℕ) → n ≢ 0 → Valid idle w → Returns (Wakes w n) (body n w)

  everyone :
      (w w' : World) (ns : List ℕ)
      → ((m : ℕ) → test (w.tcb m) ≡ true → has m ns ≡ true)
      → Round (Valid idle) (λ _ t t'. Woken clear (test t) t t') w ns w'
      → Awake idle clear test w w'
  everyone w w' ns a r = (r.0, one)
    where
      one : (n : ℕ) → Woken clear (test (w.tcb n)) (w.tcb n) (w'.tcb n)
      one n = elim (Bool-cases (has n ns)) [
        | inl e ↦ r.1 n e
        | inr e ↦ let out : test (w.tcb n) ≡ false = ground (arith, a n) in rw out (r.2 n e)
      ]

  pub each-Awake :
      Steps
      → (w : World) (ns : List ℕ) → Valid idle w
      → Distinct ns
      → ((m : ℕ) → has m ns ≡ true → m ≢ 0)
      → ((m : ℕ) → test (w.tcb m) ≡ true → has m ns ≡ true)
      → Returns (Awake idle clear test w) (each body ns w)
  each-Awake s w ns v d r a =
      Returns-mono (Round (Valid idle) (λ _ t t'. Woken clear (test t) t t') w ns)
        (Awake idle clear test w) (λ w' e. everyone w w' ns a e) _
        (each-Round (Valid idle) (λ _ t t'. Woken clear (test t) t t') body (λ n. n ≢ 0) s ns w r d
          v)

-- A body that wakes the thread by `__pthipth_change_to_state` alone.
module _ (idle : ℕ) (test : Tcb → Bool) (w : World) (n : ℕ) (h : n ≢ 0) (v : Valid idle w) where
  plain :
      (w' : World)
      → Changed w n ready w'
      → test (w.tcb n) ≡ true
      → Woken same (test (w.tcb n)) (w.tcb n) (w'.tcb n)
  plain w' c e = rw (e, Changed-self w n ready w' c) (refl, refl, refl, refl)

  pub wake-Wakes :
      test (w.tcb n) ≡ true
      → Returns (Wakes idle same test (λ n w. some w) w n) (change_to_state n ready w)
  wake-Wakes e =
      Returns-mono (λ w'. Valid idle w' × Changed w n ready w')
        (Wakes idle same test (λ n w. some w) w n)
        (λ w' r. (r.0, plain w' r.1 e, Changed-other w n ready w' r.1)) _
        (change_to_state-Valid idle w n h v ready (v.priority_lem n))

module _ (idle : ℕ) (w : World) (v : Valid idle w) where
  pub sleeper-real : (m : ℕ) → has m w.sleeping_state ≡ true → m ≢ 0
  sleeper-real m h i = ground (arith, v.consistent.sleeping_lem m, v.consistent.null_lem)

  pub blocked-real : (m : ℕ) → has m w.blocked_state ≡ true → m ≢ 0
  blocked-real m h i = ground (arith, v.consistent.blocked_lem m, v.consistent.null_lem)

-- A thread that is left as it is.
pub idle-Wakes :
    (idle : ℕ) (clear : ℕ → ℕ) (test : Tcb → Bool) (w : World) (n : ℕ)
    → Valid idle w
    → test (w.tcb n) ≡ false
    → Wakes idle clear test (λ n w. some w) w n w
idle-Wakes idle clear test w n v e = (v, (rw e refl), λ m i. refl)
