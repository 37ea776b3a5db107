-- ===== src/Signal.antt =====
-- src/pthipth_signal.c and src/pthipth_signal.h: the mask and the handler of SIGALRM. What the kernel keeps of
-- them, and `pthipth_set`, which is defined elsewhere, are the state.
use pthipth.Prelude.{ℕ, ◌≡◌, refl, ap, ◌∙◌, Bool, true, false, not, ◌&&◌, ◌||◌, ◌==◌}

-- What `signal` has set for SIGALRM.
pub data Handler : Type 0 where
  default ignored time_slice : Handler

-- Whether SIGALRM is in `pthipth_set` and in the mask of the thread, and its handler.
pub record Signals : Type 0 where
  pub pthipth_set : Bool
  pub blocked : Bool
  pub handler : Handler

abbrev pub sigalrm : ℕ
sigalrm = 14

-- `__PTHIPTH_SIGNAL_INIT`
unfoldable pub init : Signals → Signals
init s = record s { pthipth_set = true }

-- `pthipth_signal_block` and `pthipth_signal_unblock`
unfoldable pub block : Signals → Signals
block s = record s { blocked = s.blocked || s.pthipth_set }

unfoldable pub unblock : Signals → Signals
unblock s = record s { blocked = s.blocked && not s.pthipth_set }

-- `pthipth_signal_ignore` and `pthipth_signal_restore`
unfoldable pub ignore : Signals → Signals
ignore s = record s { handler = ignored }

unfoldable pub restore : Signals → Signals
restore s = record s { handler = time_slice }

-- `__signal_time_slice`: whether it yields.
unfoldable pub yields : (sig : ℕ) → Bool
yields sig = sig == sigalrm

-- Whether an alarm makes the thread yield.
abbrev pub alarmed : Signals → Bool
alarmed s = elim s.handler [ time_slice ↦ not s.blocked && yields sigalrm | _ ↦ false ]

-- Once `pthipth_set` has SIGALRM, an alarm makes no thread yield that blocks or ignores it, and makes every
-- one yield that has restored the handler and unblocked the signal, in whatever order. Before that, neither
-- blocking nor unblocking changes anything.
pub block-unblock :
    (s : Signals)
    → (alarmed (block (init s)) ≡ false)
      × (alarmed (ignore s) ≡ false)
      × (alarmed (unblock (restore (init s))) ≡ true)
      × (alarmed (restore (unblock (init s))) ≡ true)
      × (s.pthipth_set ≡ false
          → ((block s).blocked ≡ s.blocked) × ((unblock s).blocked ≡ s.blocked))
unfolding init block unblock ignore restore yields
block-unblock s = (
  blocked_alarm s.handler s.blocked,
  refl,
  unblocked s.blocked,
  unblocked s.blocked,
  λ e. (
    ap (λ b. s.blocked || b) e ∙ or_false s.blocked,
    ap (λ b. s.blocked && not b) e ∙ and_true s.blocked,
  ),
)
  where
    or_false : (b : Bool) → (b || false) ≡ b
    or_false true = refl
    or_false false = refl

    and_true : (b : Bool) → (b && true) ≡ b
    and_true true = refl
    and_true false = refl

    blocked_alarm :
        (h : Handler) (b : Bool)
        → (elim h [ time_slice ↦ not (b || true) && (14 == 14) | _ ↦ false ]) ≡ false
    blocked_alarm time_slice true = refl
    blocked_alarm time_slice false = refl
    blocked_alarm default b = refl
    blocked_alarm ignored b = refl

    unblocked : (b : Bool) → (not (b && false) && (14 == 14)) ≡ true
    unblocked true = refl
    unblocked false = refl
