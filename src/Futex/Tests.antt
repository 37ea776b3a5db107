-- ===== src/Futex/Tests.antt =====
-- Runs of the theorems on src/futex.h.
use pthipth.Prelude.{negsuc, ◌≡◌, refl, true, false, [], ◌∷◌, arith, pos, minus_one, is_zero, some}
use pthipth.Futex.{atomic_down, Sem, Step, refused, at, to_sleep, inside, outside}
use pthipth.Futex.Slow.{
  woken, would_block, error, down_timeout, taken, was_woken, down_timeout-ends,
}

-- A thread that is woken, finds the count changed once, and takes the semaphore then.
down_timeout-ends_example :
    (is_zero (atomic_down (pos 1)).1 ≡ true
      → down_timeout false ((pos 0, woken) ∷ (minus_one, would_block) ∷ (pos 1, error) ∷ [])
        ≡ taken (was_woken false ((pos 0, woken) ∷ (minus_one, would_block) ∷ [])) (pos 1))
    × (is_zero (atomic_down (pos 1)).1 ≡ false
        → error ≡ error
        → down_timeout false ((pos 0, woken) ∷ (minus_one, would_block) ∷ (pos 1, error) ∷ [])
          ≡ some ((atomic_down (pos 1)).0, minus_one))
unfolding atomic_down
down_timeout-ends_example =
    down_timeout-ends false ((pos 0, woken) ∷ (minus_one, would_block) ∷ []) (pos 1) error []
      (refl, (λ e. ground arith), (refl, (λ e. ground arith), tt))

-- Thread 1 is in its section; thread 2 comes, and its wait is interrupted.
abbrev waiting_outside : Sem
waiting_outside = record {
  count = negsuc 0;
  place = at 2 (to_sleep (negsuc 0) false) (at 1 inside (λ t. outside));
}

both_inside : (s : Sem) × Step waiting_outside s × (s.place 1 ≡ inside) × (s.place 2 ≡ inside)
both_inside = (
  record waiting_outside { place = at 2 inside waiting_outside.place },
  refused waiting_outside 2 (negsuc 0) false refl,
  refl,
  refl,
)
