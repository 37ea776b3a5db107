-- ===== src/Clock.antt =====
-- The clock and the interval timer of src/pthipth_utils.c.
use pthipth.Prelude.{
  ℕ, ◌+◌, ◌*◌, ◌/◌, ◌%◌, ◌^◌, ◌≤◌, ◌<◌, ◌≡◌, ◌⊎◌, inl, inr, arith, ℤ, pos, negsuc,
}

-- `struct timespec` of CLOCK_MONOTONIC
pub record Timespec : Type 0 where
  pub tv_sec : ℕ
  pub tv_nsec : ℕ

-- `__pthipth_gettime_ms`, a number of 64 bits
unfoldable pub gettime_ms : Timespec → ℕ
gettime_ms ts = (ts.tv_sec * 1000 + ts.tv_nsec / 1000000) % 2 ^ 64

-- `struct timeval` and `struct itimerval`
pub record Timeval : Type 0 where
  pub tv_sec : ℕ
  pub tv_usec : ℕ

pub record Itimerval : Type 0 where
  pub it_value : Timeval
  pub it_interval : Timeval

abbrev pub of_ms : ℕ → Timeval
of_ms ms = record { tv_sec = ms / 1000; tv_usec = (ms % 1000) * 1000 }

-- What `__pthipth_set_thread_time_quota` gives to `setitimer`; all 0 stops the timer.
unfoldable pub set_thread_time_quota : ℤ → Itimerval
set_thread_time_quota (negsuc n) = record { it_value = of_ms 0; it_interval = of_ms 0 }
set_thread_time_quota (pos ms) = record { it_value = of_ms ms; it_interval = of_ms ms }

-- The milliseconds that a `struct timeval` stands for.
abbrev pub to_ms : Timeval → ℕ
to_ms t = t.tv_sec * 1000 + t.tv_usec / 1000

-- Of a quota that is not negative, the timer's value and interval hold it to the millisecond, and their
-- microseconds are fewer than a second has, as `setitimer` demands.
pub set_thread_time_quota-ms :
    (ms : ℕ)
    → (to_ms (set_thread_time_quota (pos ms)).it_value ≡ ms)
      × (to_ms (set_thread_time_quota (pos ms)).it_interval ≡ ms)
      × ((set_thread_time_quota (pos ms)).it_value.tv_usec < 1000000)
      × ((set_thread_time_quota (pos ms)).it_interval.tv_usec < 1000000)
unfolding set_thread_time_quota
set_thread_time_quota-ms ms = (omega arith, omega arith, omega arith, omega arith)

-- As long as the milliseconds fit in 64 bits, a later reading of the clock is not an earlier time.
pub gettime_ms-le :
    (s t : Timespec)
    → (s.tv_sec < t.tv_sec) ⊎ ((s.tv_sec ≡ t.tv_sec) × (s.tv_nsec ≤ t.tv_nsec))
    → s.tv_nsec < 1000000000
    → t.tv_sec * 1000 + t.tv_nsec / 1000000 < 2 ^ 64
    → gettime_ms s ≤ gettime_ms t
unfolding gettime_ms
gettime_ms-le s t (inl l) n b = omega arith
gettime_ms-le s t (inr (e, l)) n b = omega arith
