-- ===== src/Aging.antt =====
-- src/pthipth_aging.c. The time and the stamps are unsigned numbers of 64 bits; a priority, an `int`,
-- is not negative here, and `aging_time` is at least 1, as create and init see to. The inner loop runs on
-- fuel, since it does not always end.
pub mod Loop
pub mod Aged
pub mod Promote
pub mod Off
pub mod Frame
pub mod Kept
pub mod Keeps
use pthipth.Prelude.{
  ℕ, zero, suc, ◌+◌, ◌-◌, ◌*◌, ◌/◌, ◌%◌, ◌^◌, Bool, true, false, Option, none, some, List, [], ◌∷◌,
  ◌==◌, ◌||◌, ltb, leb, if◌then◌else◌,
}
use pthipth.Ready
use pthipth.Ready.{Ready, first}
use pthipth.World.{
  Tcb, World, running, same_state, set_tcb, bq_reinsert, main_priority, idle_priority,
  highest_priority,
}

pub data Run {ℓ} (A : Type ℓ) : Type ℓ where
  done : (a : A) → Run A
  fault : Run A
  out_of_fuel : Run A

infixl 5 ◌>>=◌
abbrev pub ◌>>=◌ {ℓ κ} : {A : Type ℓ} {B : Type κ} → Run A → (A → Run B) → Run B
done a >>= f = f a
fault >>= f = fault
out_of_fuel >>= f = out_of_fuel

abbrev pub run {ℓ} : {A : Type ℓ} → Option A → Run A
run none = fault
run (some a) = done a

-- `priority -= waiting_time / aging_time * aging_factor`: the difference is one of 64 bits, which the
-- `int` takes the low 32 bits of; below `HIGHEST_PRIORITY`, negative ones included, it is set to that.
unfoldable pub aged : (old now last time factor : ℕ) → ℕ
aged old now last time factor =
    let waiting = (now + 2 ^ 64 - last) % 2 ^ 64 in
    let raw = (old + 2 ^ 64 - (waiting / time * factor) % 2 ^ 64) % 2 ^ 32 in
    if ltb raw highest_priority || leb (2 ^ 31) raw then highest_priority else raw

abbrev pub aged_of : ℕ → Tcb → ℕ
aged_of now t = aged t.old_priority now t.last_selected t.aging_time t.aging_factor

-- The node after `n` in a circular list whose first node is `head`.
unfoldable pub next_in : (head n : ℕ) → List ℕ → ℕ
next_in head n [] = head
next_in head n (x ∷ xs) = if x == n then elim xs [ [] ↦ head | y ∷ ys ↦ y ] else next_in head n xs

abbrev pub next_at : World → ℕ → Option ℕ → ℕ
next_at w n none = 0
next_at w n (some p) = next_in (first (w.ready_queue.bucket p)) n (w.ready_queue.bucket p)

-- `cur->next`
abbrev pub next : World → ℕ → ℕ
next w n = next_at w n (w.tcb n).cur_priority

-- The write of `old_priority` and `last_selected`.
unfoldable pub remember : (now n : ℕ) → World → World
remember now n w =
    let t = w.tcb n in
    if ltb (aged_of now t) t.old_priority
    then set_tcb n (record t { old_priority = aged_of now t; last_selected = now }) w
    else w

abbrev pub passes : Tcb → Bool
passes t = same_state t.state running || (t.aging_factor == 0)

unfoldable pub promote : (n priority : ℕ) → World → Option World
promote n priority w = bq_reinsert n (set_tcb n (record (w.tcb n) { priority = priority }) w)

-- What one turn of the inner loop leaves: its end, or another turn at `cur`.
pub data Turn : Type 0 where
  ends : (w : World) → Turn
  faults : Turn
  goes_on : (cur : ℕ) (w : World) → Turn

abbrev pub promoted : (head cur : ℕ) → Option World → Turn
promoted head cur none = faults
promoted head cur (some w) = if cur == head then ends w else goes_on cur w

-- The body. If the first thread of the bucket is promoted, the loop ends: `head` and `cur` are then the
-- node after it.
unfoldable pub turn : (now head cur : ℕ) → World → Turn
unfolding promote remember
turn now head cur w =
    if cur == 0
    then faults
    else if passes (w.tcb cur)
    then (if next w cur == head then ends w else goes_on (next w cur) w)
    else if ltb (aged_of now (w.tcb cur)) (w.tcb cur).priority
    then promoted head cur (promote cur (aged_of now (w.tcb cur)) (remember now cur w))
    else if cur == head
    then ends (remember now cur w)
    else goes_on cur (remember now cur w)

-- The inner loop, over one bucket.
unfoldable pub age_bucket : (fuel now head cur : ℕ) → World → Run World
unfolding turn
age_bucket zero now head cur w = out_of_fuel
age_bucket (suc fuel) now head cur w = elim (turn now head cur w) [
  | ends w' ↦ done w'
  | faults ↦ fault
  | goes_on cur' w' ↦ age_bucket fuel now head cur' w'
]

abbrev pub skipped : World → ℕ → Bool
skipped w head =
    (head == 0)
    || ((w.tcb head).init_priority == main_priority)
    || ((w.tcb head).init_priority == idle_priority)

unfoldable pub age_from : (fuel now priority count : ℕ) → World → Run World
unfolding age_bucket
age_from fuel now i zero w = done w
age_from fuel now i (suc count) w =
    let head = first (w.ready_queue.bucket i) in
    (elim (skipped w head) [ true ↦ done w | false ↦ age_bucket fuel now head head w ]) >>= λ w.
    age_from fuel now (i + 1) count w

abbrev pub age_queue : (fuel now : ℕ) → Option ℕ → World → Run World
age_queue fuel now none w = fault
age_queue fuel now (some p) w = age_from fuel now p (idle_priority + 1 - p) w

-- `__pthipth_aging`
unfoldable pub aging : (fuel now : ℕ) → World → Run World
unfolding age_from Ready.peek
aging fuel now w =
    let head = Ready.peek w.ready_queue in
    if head == 0 then done w else age_queue fuel now (w.tcb head).cur_priority w
