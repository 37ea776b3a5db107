-- ===== src/Threads/Finish.antt =====
-- The end of a thread: src/pthipth_exit.c, src/pthipth_join.c and src/pthipth_detach.c.
use pthipth.Prelude.{
  ℕ, Bool, true, not, Option, none, some, [], ◌∷◌, ◌++◌, ◌==◌, ◌&&◌, ◌||◌, if◌then◌else◌, ◌>>=◌, ℤ,
  pos, minus_one,
}
use pthipth.Avl.{search_tid}
use pthipth.World.{ready, blocked, defunct, same_state, World, set_tcb, change_to_state}
use pthipth.Yield.{free_thread}
use pthipth.Threads.{Globals}

-- The parts of `pthipth_exit`: the thread that joins is woken, and then the thread ends.
unfoldable pub wake_joiner : ℕ → World → Option World
wake_joiner self w =
    if (w.tcb self).blocked_for_join == 0
    then some w
    else change_to_state (w.tcb self).blocked_for_join ready w

unfoldable pub finish : (self return_val : ℕ) → World → Option World
finish self return_val w =
    change_to_state self defunct
      (set_tcb self (record (w.tcb self) { return_value = return_val }) w)

unfoldable pub queue_detached : ℕ → World → World
queue_detached self w =
    if (w.tcb self).is_detach && same_state (w.tcb self).state defunct
    then record w { defunct_state = w.defunct_state ++ (self ∷ []) }
    else w

-- `pthipth_exit` up to its call of the dispatcher
unfoldable pub exit_start : (self return_val : ℕ) → World → Option World
exit_start self return_val w = do
  w ← wake_joiner self w
  w ← finish self return_val w
  some (queue_detached self w)

-- How `pthipth_join` and `pthipth_detach` go on after their first section: with a result, with the wait
-- for the kernel to clear `tid_watch`, or with a yield before that wait.
pub data After : Type 0 where
  returns : (value : ℤ) → After
  waits_for : (target : ℕ) → After
  yields_for : (target : ℕ) → After

abbrev pub refuses : (target self : ℕ) → World → Bool
refuses target self w =
    (target == 0)
    || (self == 0)
    || not ((w.tcb target).blocked_for_join == 0)
    || ((w.tcb target).tid == (w.tcb self).tid)
    || (w.tcb target).is_detach

-- `pthipth_join`, up to its first release of the global futex
unfoldable pub join_start : Globals → (self target_thread : ℕ) → World → Option (World × After)
join_start g self target_thread w =
    let target = search_tid target_thread w.avl_root in
    if not g.is_init || refuses target self w
    then some (w, returns minus_one)
    else if same_state (w.tcb target).state defunct
    then some (w, waits_for target)
    else (do
      w ←
          change_to_state self blocked
            (set_tcb target (record (w.tcb target) { blocked_for_join = self }) w)
      some (w, yields_for target))

-- The last section of `pthipth_join`, after `tid_watch` is 0: `*status` where `status` is not NULL, and the
-- result.
unfoldable pub join_end : (target : ℕ) (status : Option ℕ) → World → Option (World × Option ℕ × ℤ)
join_end target status w = do
  w' ← free_thread target w
  some (w', elim status [ none ↦ none | some s ↦ some (w.tcb target).return_value ], pos 0)

-- `pthipth_detach`, up to its release of the global futex
unfoldable pub detach_start : (target_thread : ℕ) → World → World × After
detach_start target_thread w =
    let target = search_tid target_thread w.avl_root in
    if (target == 0) || (w.tcb target).is_detach || not ((w.tcb target).blocked_for_join == 0)
    then (w, returns minus_one)
    else (let w' = set_tcb target (record (w.tcb target) { is_detach = true }) w in
        (w', if same_state (w.tcb target).state defunct then waits_for target else returns (pos 0)))

-- The end of `pthipth_detach` of a thread that has exited, after `tid_watch` is 0.
unfoldable pub detach_end : ℕ → World → Option (World × ℤ)
detach_end target w = do w ← free_thread target w; some (w, pos 0)
