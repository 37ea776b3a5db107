-- ===== src/Mutex/Excludes.antt =====
-- A mutex that is taken stays taken: the attempts to lock of src/pthipth_mutex.c.
use pthipth.Prelude.{
  ℕ, ◌≡◌, ◌≢◌, refl, inl, inr, Bool, true, false, Option, none, some, List, [], ◌∷◌, All,
  Bool-cases, ◌==◌, ◌||◌,
}
use pthipth.World.{World, Count, up, down, waiting}
use pthipth.Mutex.{Mutex, Attempt, taken, lock_attempt, attempt_at, count_down}

-- The count of the mutex is not 1.
abbrev pub held : Option Count → Bool
held none = false
held (some up) = false
held (some down) = true
held (some waiting) = true

abbrev Waits : Mutex × Attempt → Type 0
Waits r = (held r.0.futx ≡ true) × (r.1 ≢ taken)

attempt-Waits : (m : Mutex) (c : Count) → held (some c) ≡ true → Waits (attempt_at m (count_down c))
attempt-Waits m up h = cc
attempt-Waits m down h = (refl, λ e. cc)
attempt-Waits m waiting h = (refl, λ e. cc)

attempt-held :
    (m : Mutex) (c : Count)
    → (attempt_at m (count_down c)).1 ≡ taken
    → held (attempt_at m (count_down c)).0.futx ≡ true
attempt-held m up e = refl
attempt-held m down e = cc
attempt-held m waiting e = cc

module _ (self : ℕ) (w : World) (t : ℕ) where
  with_futx-Waits :
      (o : Option Count)
      → held o ≡ true
      → Waits (lock_attempt true self w (record { futx = o; owner_tid = t }))
  unfolding lock_attempt
  with_futx-Waits none h = cc
  with_futx-Waits (some c) h = elim (Bool-cases ((self == 0) || (t == (w.tcb self).tid))) [
    | inl e ↦ rw e (h, λ i. cc)
    | inr e ↦ rw e (attempt-Waits (record { futx = some c; owner_tid = t }) c h)
  ]

  with_futx-held :
      (o : Option Count)
      → (lock_attempt true self w (record { futx = o; owner_tid = t })).1 ≡ taken
      → held (lock_attempt true self w (record { futx = o; owner_tid = t })).0.futx ≡ true
  unfolding lock_attempt
  with_futx-held none e = cc
  with_futx-held (some c) e = elim (Bool-cases ((self == 0) || (t == (w.tcb self).tid))) [
    | inl i ↦ cc
    | inr i ↦ rw i (attempt-held (record { futx = some c; owner_tid = t }) c (rw i at e))
  ]

-- The outcomes of attempts, each in the state that it finds the library in.
abbrev pub outcomes : List (ℕ × World) → Mutex → List Attempt
outcomes [] m = []
outcomes ((self, w) ∷ rest) m =
    (lock_attempt true self w m).1 ∷ outcomes rest (lock_attempt true self w m).0

outcomes-held :
    (rest : List (ℕ × World)) (m : Mutex)
    → held m.futx ≡ true
    → All (λ a. a ≢ taken) (outcomes rest m)
outcomes-held [] m h = tt
outcomes-held ((self, w) ∷ rest) m h =
    let r = with_futx-Waits self w m.owner_tid m.futx h in
    (r.1, outcomes-held rest (lock_attempt true self w m).0 r.0)

-- After an attempt that has taken the mutex, no attempt takes it, of whatever threads and however many,
-- as long as it is not unlocked.
pub taken-outcomes :
    (self : ℕ) (w : World) (m : Mutex)
    → (lock_attempt true self w m).1 ≡ taken
    → (rest : List (ℕ × World))
    → All (λ a. a ≢ taken) (outcomes rest (lock_attempt true self w m).0)
taken-outcomes self w m e rest =
    outcomes-held rest (lock_attempt true self w m).0 (with_futx-held self w m.owner_tid m.futx e)
