-- ===== src/Futex/Slow.antt =====
-- `futex_down_timeout` of src/futex.h and its system call of src/futex.c, as one thread sees them: what
-- the count is at each attempt, which the other threads decide, and what the system answers.
use pthipth.Prelude.{
  ◌≡◌, ◌≢◌, refl, Bool, true, false, Option, none, some, List, [], ◌∷◌, ◌++◌, ◌==◌, if◌then◌else◌,
  ℤ, pos, negsuc, is_zero, minus_one,
}
use pthipth.Futex.{atomic_down, atomic_up}

-- How `FUTEX_WAIT` ends: with 0, with `EWOULDBLOCK`, or with another error, a timeout or a signal.
pub data Answer : Type 0 where
  woken would_block error : Answer

-- `__futex_down_slow`
unfoldable pub down_slow : Answer → ℤ
down_slow woken = pos 0
down_slow would_block = pos 1
down_slow error = minus_one

-- `__futex_up_slow`: the count, and what the system answers to `FUTEX_WAKE`.
unfoldable pub up_slow : (wake : ℤ) → ℤ → ℤ × ℤ
up_slow wake count = (pos 1, wake)

-- `futex_up` with its result
unfoldable pub up_result : (wake : ℤ) → ℤ → ℤ × ℤ
up_result wake count =
    let (after, woke) = atomic_up count in
    if is_zero woke then up_slow wake after else (after, pos 0)

-- What an attempt meets: the count, and the answer if it has to wait.
abbrev pub Attempt : Type 0
Attempt = ℤ × Answer

-- After an attempt that has taken the semaphore: the count, which is marked if the thread was woken.
abbrev pub taken : (woken : Bool) (count : ℤ) → Option (ℤ × ℤ)
taken w count = some (if w then minus_one else (atomic_down count).0, pos 0)

-- `futex_down_timeout`: the count that it leaves at its last attempt, and its result; `none` if it still
-- waits after these attempts.
unfoldable pub down_timeout : (woken : Bool) → List Attempt → Option (ℤ × ℤ)
unfolding down_slow
down_timeout w [] = none
down_timeout w ((count, answer) ∷ rest) =
    let after_wake = down_timeout true rest in
    let after_block = down_timeout w rest in
    if is_zero (atomic_down count).1 then taken w count else elim (down_slow answer) [
      | negsuc n ↦ some ((atomic_down count).0, minus_one)
      | pos r ↦ if r == 0 then after_wake else after_block
    ]

-- `futex_down`
unfoldable pub down : List Attempt → Option (ℤ × ℤ)
unfolding down_timeout
down attempts = down_timeout false attempts

-- Whether the attempt takes the semaphore.
abbrev pub takes : Attempt → Bool
takes (count, answer) = is_zero (atomic_down count).1

-- The attempts before it end in no error, and take nothing.
abbrev pub Waits : List Attempt → Type 0
Waits [] = Unit
Waits ((c, a) ∷ rest) = (takes (c, a) ≡ false) × (a ≢ error) × Waits rest

-- Whether an answer of the attempts was a wake-up.
abbrev pub was_woken : Bool → List Attempt → Bool
was_woken w [] = w
was_woken w ((c, woken) ∷ rest) = was_woken true rest
was_woken w ((c, _) ∷ rest) = was_woken w rest

-- The attempts `before` wait: the next one takes the semaphore, with the result 0, and marks the count
-- with -1 if one of them was a wake-up; or the system answers it with an error, which is the result -1.
pub down_timeout-ends :
    (w : Bool) (before : List Attempt) (count : ℤ) (answer : Answer) (after : List Attempt)
    → Waits before
    → (is_zero (atomic_down count).1 ≡ true
        → down_timeout w (before ++ ((count, answer) ∷ after)) ≡ taken (was_woken w before) count)
      × (is_zero (atomic_down count).1 ≡ false
          → answer ≡ error
          → down_timeout w (before ++ ((count, answer) ∷ after))
            ≡ some ((atomic_down count).0, minus_one))
unfolding down_timeout
down_timeout-ends w [] count answer after h = ((λ t. rw t refl), λ t e. rw (t, e) refl)
down_timeout-ends w ((c, woken) ∷ before) count answer after (out, ne, h) =
    let (f, g) = down_timeout-ends true before count answer after h in
    ((λ t. rw out (f t)), λ t e. rw out (g t e))
down_timeout-ends w ((c, would_block) ∷ before) count answer after (out, ne, h) =
    let (f, g) = down_timeout-ends w before count answer after h in
    ((λ t. rw out (f t)), λ t e. rw out (g t e))
down_timeout-ends w ((c, error) ∷ before) count answer after (out, ne, h) = elim (ne refl) [ ]
