-- ===== src/Cond.antt =====
-- src/pthipth_cond.c. A condition variable has no state of its own, so it is its address, and its
-- waiters are the blocked threads whose `current_cond` is that address.
pub mod Wakes
pub mod Signal
use pthipth.Prelude.{
  ℕ, Bool, true, false, Option, none, some, List, [], ◌∷◌, ◌==◌, ◌&&◌, ◌||◌, if◌then◌else◌, ◌>>=◌,
  ℤ, pos, minus_one,
}
use pthipth.World.{
  Tcb, World, ready, blocked, same_state, set_tcb, change_to_state, Next, returned, to_yield,
}
use pthipth.World.Each.{each}

-- `pthipth_cond_init`
unfoldable pub init : ℕ → ℤ
init cond = if cond == 0 then minus_one else pos 0

abbrev pub waits : ℕ → Tcb → Bool
waits cond t = same_state t.state blocked && (t.current_cond == cond)

-- The loop of `pthipth_cond_signal`, which breaks at its first selection: `selected` is NULL at every
-- test, and NULL at the end if no thread waits.
unfoldable pub select : ℕ → (ℕ → Tcb) → List ℕ → ℕ
select cond tcb [] = 0
select cond tcb (n ∷ ns) = if waits cond (tcb n) then n else select cond tcb ns

abbrev pub forget_cond : ℕ → World → World
forget_cond n w = set_tcb n (record (w.tcb n) { current_cond = 0 }) w

unfoldable pub wake : ℕ → World → Option World
unfolding change_to_state
wake n w = change_to_state n ready (forget_cond n w)

unfoldable pub wake_selected : ℕ → World → Option World
wake_selected selected w = if selected == 0 then some w else wake selected w

-- `pthipth_cond_signal`
unfoldable pub signal : ℕ → World → Option (World × ℤ)
unfolding select wake_selected
signal cond w =
    if cond == 0
    then some (w, minus_one)
    else (do w ← wake_selected (select cond w.tcb w.blocked_state) w; some (w, pos 0))

unfoldable pub wake_waiter : ℕ → ℕ → World → Option World
unfolding wake
wake_waiter cond n w = if waits cond (w.tcb n) then wake n w else some w

-- `pthipth_cond_broadcast`
unfoldable pub broadcast : ℕ → World → Option (World × ℤ)
unfolding each wake_waiter
broadcast cond w =
    if cond == 0
    then some (w, minus_one)
    else (do w ← each (wake_waiter cond) w.blocked_state w; some (w, pos 0))

-- `pthipth_cond_wait`, up to its `pthipth_mutex_unlock`, `pthipth_yield` and `pthipth_mutex_lock`.
unfoldable pub wait : (self cond mutex : ℕ) → World → Option (World × Next)
unfolding change_to_state
wait self cond mutex w = if (cond == 0) || (mutex == 0) then some (w, returned minus_one) else (do
  w ← change_to_state self blocked (set_tcb self (record (w.tcb self) { current_cond = cond }) w)
  some (w, to_yield))

-- `pthipth_cond_wait_non`, up to its `pthipth_yield`
unfoldable pub wait_non : (self cond : ℕ) → World → Option (World × Next)
unfolding change_to_state
wait_non self cond w = if cond == 0 then some (w, returned minus_one) else (do
  w ← change_to_state self blocked w
  some (set_tcb self (record (w.tcb self) { current_cond = cond }) w, to_yield))

-- `pthipth_cond_destroy`
unfoldable pub destroy : ℕ → ℤ
destroy cond = if cond == 0 then minus_one else pos 0
