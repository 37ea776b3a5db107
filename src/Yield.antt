-- ===== src/Yield.antt =====
-- src/pthipth_yield.c, with `__pthipth_check_detach` of src/pthipth_detach.c, `__pthipth_free` of
-- src/pthipth_utils.c and `futex_up` of src/futex_inline.h, which it calls. Each reading of the clock is a
-- parameter of its own. `pthipth_yield` is two sections with the wait at the thread's own futex between
-- them.
pub mod Scheduler
pub mod Swept
pub mod Sweep
pub mod Dispatch
pub mod Files
pub mod Upkeep
pub mod Ends
use pthipth.Prelude.{
  ℕ, ◌+◌, ◌-◌, ◌%◌, ◌^◌, Bool, true, false, not, Option, none, some, List, ◌==◌, ◌&&◌, ◌||◌, leb,
  if◌then◌else◌, erase, ℤ, pos, negsuc, minus_one,
}
use pthipth.Avl
use pthipth.Avl.{Tree}
use pthipth.Ready
use pthipth.World.{
  ThreadState, ready, running, same_state, Count, up, down, waiting, Tcb, World, set_tcb,
  change_to_state, Next, returned, to_yield,
}
use pthipth.World.Each.{each}
use pthipth.Sleep.{check_sleeping}
use pthipth.Aging.{Run, done, fault, run, aging, ◌>>=◌}

-- `__pthipth_free`, less the memory
unfoldable pub free_thread : ℕ → World → Option World
free_thread n w = elim (Avl.delete (w.tcb n).tid w.avl_root) [
  | none ↦ none
  | some t ↦ some (record w { avl_root = t })
]

unfoldable pub free_detached : (node n : ℕ) → World → Option World
free_detached node n w =
    if not (node == n) && ((w.tcb n).tid_watch == 0)
    then free_thread n (record w { defunct_state = erase n w.defunct_state })
    else some w

-- `__pthipth_check_detach`
unfoldable pub check_detach : ℕ → World → Option World
check_detach node w = each (free_detached node) w.defunct_state w

-- `__pthipth_scheduler`
unfoldable pub scheduler : ℕ → World → World × ℕ
scheduler cur w =
    let next = Ready.peek w.ready_queue in
    let w' = record w { ready_queue = Ready.rotate w.ready_queue } in
    (w', if cur == next then Ready.peek w'.ready_queue else next)

unfoldable pub stamp : (node next now : ℕ) → World → World
stamp node next now w =
    let w' = set_tcb next (record (w.tcb next) { last_selected = now }) w in
    set_tcb node (record (w'.tcb node) { last_selected = now }) w'

-- `futex_up` of a thread's own futex, whatever its count
unfoldable pub wake_up : ℕ → World → World
wake_up n w = set_tcb n (record (w.tcb n) { sched_futex = up }) w

unfoldable pub to_ready : ℕ → World → Option World
to_ready node w =
    if same_state (w.tcb node).state running then change_to_state node ready w else some w

-- The end of the dispatcher, from `tmp == node` on; `next` is the thread that it has chosen.
unfoldable pub hand_over : (node next : ℕ) → World → World × ℤ
hand_over node next w =
    if next == node then (w, minus_one) else (wake_up next (record w { current = next }), pos 0)

-- Of the thread that is chosen; the code reads a field of it.
unfoldable pub select_next : (node next now : ℕ) → World → Run (World × ℤ)
select_next node next now w =
    if next == 0
    then fault
    else run (change_to_state next running (stamp node next now w)) >>= λ w.
        done (hand_over node next w)

-- The dispatcher from `node->state == RUNNING` on.
unfoldable pub choose : (t_select node : ℕ) → World → Run (World × ℤ)
choose t_select node w = run (to_ready node w) >>= λ w.
    select_next node (scheduler node w).1 t_select (scheduler node w).0

-- `__pthipth_dispatcher`
unfoldable pub dispatcher : (fuel t_sleep t_aging t_select node : ℕ) → World → Run (World × ℤ)
dispatcher fuel t_sleep t_aging t_select node w = do
  w ← run (check_sleeping t_sleep w)
  w ← aging fuel t_aging w
  w ← run (check_detach node w)
  choose t_select node w

-- What is left of a wake-up that nobody took before the thread waits.
unfoldable pub take_left : ℕ → World → World
take_left n w = elim (w.tcb n).sched_futex [
  | up ↦ set_tcb n (record (w.tcb n) { sched_futex = down }) w
  | down ↦ w
  | waiting ↦ w
]

-- `pthipth_yield` up to the release of the global futex; the thread waits at its own futex next, unless
-- it was chosen itself.
unfoldable pub yield : (fuel t_sleep t_aging t_select self : ℕ) → World → Run (World × Bool)
yield fuel t_sleep t_aging t_select self w =
    dispatcher fuel t_sleep t_aging t_select self w >>= λ r. elim r.1 [
      | negsuc n ↦ done (r.0, false)
      | pos n ↦ done (take_left self r.0, true)
    ]

-- The rest of `pthipth_yield`, which goes on only where the futex of the thread is up: `slept` says
-- whether it had to sleep for it.
unfoldable pub resume : (self : ℕ) (slept : Bool) → World → Option World
resume self slept w = elim (w.tcb self).sched_futex [
  | up ↦
      some (set_tcb self (record (w.tcb self) { sched_futex = if slept then waiting else down }) w)
  | down ↦ none
  | waiting ↦ none
]

-- `pthipth_yield_qtime`: whether it yields. The difference is taken in 64 bits and read as a signed one.
unfoldable pub qtime_yields : (self now : ℕ) → ℤ → World → Bool
qtime_yields self now (negsuc ms) w = true
qtime_yields self now (pos ms) w =
    let time = (now + 2 ^ 64 - (w.tcb self).last_selected) % 2 ^ 64 in
    (ms == 0) || (not (leb (2 ^ 63) time) && leb ms time)
