-- ===== src/Futex.antt =====
-- src/futex.h, src/futex_inline.h and src/futex.c: the semaphore, and threads that use it to exclude each
-- other, as all of the library does with `global_futex`. An atomic operation is one step; the system call
-- compares and goes to sleep in one step, and wakes one sleeper.
pub mod Excludes
pub mod Slow
mod Tests
use pthipth.Prelude.{
  ℕ, ◌≡◌, ◌≢◌, ◌==◌, Bool, true, false, Option, none, some, if◌then◌else◌, ℤ, pos, negsuc, incr,
  decr, is_zero, ltz,
}

-- `__futex_down` (`atomic_compare_exchange_weak` repeated until it succeeds): the count after it and what
-- it returns.
unfoldable pub atomic_down : ℤ → ℤ × ℤ
atomic_down (negsuc n) = (negsuc n, negsuc n)
atomic_down (pos n) = (decr (pos n), decr (pos n))

-- `__futex_up`, whose exchange succeeds if no other thread interferes: the count and what it returns.
unfoldable pub atomic_up : ℤ → ℤ × ℤ
atomic_up z = (incr z, if is_zero z then pos 1 else pos 0)

-- `futex_up`: whether it calls the system to wake a sleeper, for which the count is 1 first.
unfoldable pub up : ℤ → ℤ × Bool
up z = if is_zero z then (incr z, false) else (pos 1, true)

-- `futex_init`
unfoldable pub init : ℤ → ℤ
init value = value

-- Where a thread stands in `futex_down_timeout`, with the values of its variables.
pub data Place : Type 0 where
  outside : Place
  trying : (woken : Bool) → Place
  to_sleep : (value : ℤ) (woken : Bool) → Place
  asleep : Place
  to_mark : Place
  inside : Place
  to_wake : Place

-- The semaphore and the places of the threads.
pub record Sem : Type 0 where
  pub count : ℤ
  pub place : ℕ → Place

abbrev pub at : ℕ → Place → (ℕ → Place) → ℕ → Place
at t p places u = if t == u then p else places u

-- After `__futex_down` has returned `value`
abbrev pub after_down : (woken : Bool) (value : ℤ) → Place
after_down woken value =
    if is_zero value then (if woken then to_mark else inside) else to_sleep value woken

-- The steps of a thread. Where the system call answers with an error, at once or while the thread sleeps, as
-- for a signal, `futex_down` returns -1; no caller looks at it, so the thread goes on into its section.
pub data Step : Sem → Sem → Type 0 where
  enters :
      (s : Sem) (t : ℕ)
      → s.place t ≡ outside
      → Step s (record s { place = at t (trying false) s.place })
  tries :
      (s : Sem) (t : ℕ) (woken : Bool)
      → s.place t ≡ trying woken
      → Step s (record {
        count = (atomic_down s.count).0;
        place = at t (after_down woken (atomic_down s.count).1) s.place;
      })
  sleeps :
      (s : Sem) (t : ℕ) (woken : Bool)
      → s.place t ≡ to_sleep s.count woken
      → Step s (record s { place = at t asleep s.place })
  retries :
      (s : Sem) (t : ℕ) (value : ℤ) (woken : Bool)
      → s.place t ≡ to_sleep value woken
      → s.count ≢ value
      → Step s (record s { place = at t (trying woken) s.place })
  refused :
      (s : Sem) (t : ℕ) (value : ℤ) (woken : Bool)
      → s.place t ≡ to_sleep value woken
      → Step s (record s { place = at t inside s.place })
  interrupted :
      (s : Sem) (t : ℕ) → s.place t ≡ asleep → Step s (record s { place = at t inside s.place })
  marks :
      (s : Sem) (t : ℕ)
      → s.place t ≡ to_mark
      → Step s (record { count = negsuc 0; place = at t inside s.place })
  leaves :
      (s : Sem) (t : ℕ)
      → s.place t ≡ inside
      → (up s.count).1 ≡ false
      → Step s (record { count = (up s.count).0; place = at t outside s.place })
  posts :
      (s : Sem) (t : ℕ)
      → s.place t ≡ inside
      → (up s.count).1 ≡ true
      → Step s (record { count = (up s.count).0; place = at t to_wake s.place })
  wakes :
      (s : Sem) (t u : ℕ)
      → s.place t ≡ to_wake
      → s.place u ≡ asleep
      → Step s (record s { place = at u (trying true) (at t outside s.place) })
  wakes_none :
      (s : Sem) (t : ℕ)
      → s.place t ≡ to_wake
      → ((u : ℕ) → s.place u ≢ asleep)
      → Step s (record s { place = at t outside s.place })

pub data Reach (s : Sem) : Sem → Type 0 where
  here : Reach s s
  step : (s' s'' : Sem) → Reach s s' → Step s' s'' → Reach s s''

-- The step is not an error of the system call.
abbrev pub Waits : (s s' : Sem) → Step s s' → Type 0
Waits _ _ (refused s t value woken p) = ⊥
Waits _ _ (interrupted s t p) = ⊥
Waits _ _ _ = Unit

-- No system call of the run has answered with an error.
abbrev pub AllWait : (s s' : Sem) → Reach s s' → Type 0
AllWait s _ here = Unit
AllWait s _ (step s' s'' r t) = AllWait s s' r × Waits s' s'' t

-- `global_futex` after `pthipth_init`: 1, with no thread in a section.
unfoldable pub start : Sem
start = record { count = pos 1; place = λ t. outside }
