-- ===== src/Tests.antt =====
-- Runs of the theorems on the state of World.Example, for src/pthipth_utils.c, src/pthipth_yield.c,
-- src/pthipth_sleep.c, src/pthipth_cond.c, src/pthipth_barrier.c, src/pthipth_mutex.c,
-- src/pthipth_set.c, src/pthipth_aging.c, src/pthipth_create.c and src/futex.h.
use pthipth.Prelude.{
  true, All, List, ◌∷◌, ℕ, ◌-◌, ◌*◌, ◌/◌, ◌≤◌, ◌≡◌, ◌≢◌, refl, true, false, some, [], arith, max,
  pos, length,
}
use pthipth.Avl.{search_tid}
use pthipth.World.{
  Tcb, World, blocked, running, set_tcb, change_to_state, returned, highest_priority,
}
use pthipth.World.Invariant.{Consistent}
use pthipth.World.Example.{world, threads, world-Consistent, world-Valid}
use pthipth.World.Moves.{Returns}
use pthipth.World.State.{change_to_state-Consistent}
use pthipth.World.Valid.{Valid, set_tcb-Valid}
use pthipth.World.Wake.{Awake, same}
use pthipth.World.Result.{ReturnsWith}
use pthipth.Sleep.{check_sleeping}
use pthipth.Sleep.Wakes.{is_due, check_sleeping-Awake}
use pthipth.Cond
use pthipth.Cond.Wakes.{cleared, broadcast-Awake}
use pthipth.Cond.Signal.{Signalled, signal-first}
use pthipth.Barrier
use pthipth.Barrier.{Barrier, stands, serial_thread}
use pthipth.Barrier.Opens.{ReturnsAt, wait-Awake}
use pthipth.Yield.{scheduler}
use pthipth.Yield.Scheduler.{Chosen, scheduler-Chosen}
use pthipth.Aging.{done, aging, aged, age_bucket, passes}
use pthipth.Aging.Aged.{aged-max}
use pthipth.Aging.Off.{aging-off}
use pthipth.Aging.Loop.{age_bucket-stuck}
use pthipth.Mutex.{lock_taken, unlock}
use pthipth.World.{up}
use pthipth.Mutex.{Mutex, taken, lock_attempt}
use pthipth.Mutex.Excludes.{outcomes, taken-outcomes}
use pthipth.Mutex.Locks.{Locked, Unlocked, lock_taken-Locked, unlock-Unlocked}
use pthipth.World.{down}
use pthipth.Threads.{Task, Globals}
use pthipth.Threads.Finish.{exit_start}
use pthipth.Threads.Exit.{Exited, exit_start-Exited}
use pthipth.Futex.{
  Sem, Reach, here, step, enters, tries, start, at, trying, after_down, atomic_down, outside,
}
use pthipth.Futex.Excludes.{Reach-one}

abbrev Apart : ℕ → ℕ → Type 0
Apart m n = m ≢ n

two_real : Apart 2 0
two_real = ground arith

two_below : Apart 2 1
two_below = ground arith

change_to_state-Consistent_example :
    Returns (λ w. Consistent w × ((w.tcb 2).state ≡ blocked)) (change_to_state 2 blocked world)
change_to_state-Consistent_example =
    change_to_state-Consistent world 2 two_real world-Consistent blocked (ground arith)

only_two : (m : ℕ) → (threads m).state ≡ running → m ≡ 2
only_two m e = ground arith

scheduler-Chosen_example :
    Valid 1 (scheduler 2 world).0
    × Chosen (scheduler 2 world).0 (scheduler 2 world).1
    × ((n : ℕ) → (scheduler 2 world).0.tcb n ≡ world.tcb n)
scheduler-Chosen_example = scheduler-Chosen 1 world world-Valid 2

check_sleeping-Awake_example : Returns (Awake 1 same (is_due 100) world) (check_sleeping 100 world)
check_sleeping-Awake_example = check_sleeping-Awake 1 100 world world-Valid

nine_real : Apart 9 0
nine_real = ground arith

broadcast-Awake_example :
    ReturnsWith (pos 0) (Awake 1 cleared (Cond.waits 9) world) (Cond.broadcast 9 world)
broadcast-Awake_example = broadcast-Awake 1 9 nine_real world world-Valid

signal-first_example : ReturnsWith (pos 0) (Signalled 1 world 3) (Cond.signal 9 world)
signal-first_example = signal-first 1 9 nine_real world world-Valid [] [] 3 refl tt refl

six_real : Apart 6 0
six_real = ground arith

nobody_at_six : (m : ℕ) → m ≢ 2 → Cond.waits 6 (threads m) ≡ false
nobody_at_six m h = ground arith

eight_real : Apart 8 0
eight_real = ground arith

wait-Awake_example :
    ReturnsAt
      (record { count = pos 2; waiting = pos 0 })
      (returned serial_thread)
      (Awake 1 same (stands 8) world)
      (Barrier.wait 2 8 (record { count = pos 2; waiting = pos 1 }) world)
wait-Awake_example = wait-Awake 1 2 8 eight_real two_real world world-Valid 2 1 (omega arith)

lock_taken-Locked_example :
    Locked 1 2 two_real two_below world world-Valid refl 102
      (record { futx = some down; owner_tid = 0 })
      (lock_taken 2 102 world (record { futx = some down; owner_tid = 0 }))
lock_taken-Locked_example =
    lock_taken-Locked 1 2 two_real two_below world world-Valid refl 102
      (record { futx = some down; owner_tid = 0 })

-- Thread 2 with one mutex, and its priority promoted.
abbrev owner : Tcb
owner = record (threads 2) { mutex_count = pos 1; priority = 0 }

abbrev owned : World
owned = set_tcb 2 owner world

owned-Valid : Valid 1 owned
owned-Valid = set_tcb-Valid 1 world 2 owner world-Valid refl refl (omega arith) (λ h. ground arith)

two_found : search_tid 102 owned.avl_root ≡ 2
unfolding search_tid
two_found = refl

unlock-Unlocked_example :
    Unlocked 1 2 two_real two_below owned owned-Valid refl refl
      (omega arith)
      (unlock true 102 owned (record { futx = some down; owner_tid = 102 }))
unlock-Unlocked_example =
    unlock-Unlocked 1 2 two_real two_below owned owned-Valid refl refl (omega arith) 102
      (record { futx = some down; owner_tid = 102 }) refl (ground arith) refl two_found

aged-max_example : aged 20 1000 0 100 1 ≡ max highest_priority (20 - (1000 - 0) / 100 * 1)
aged-max_example = aged-max 20 1000 0 100 1 (omega arith) (omega arith) (omega arith) (omega arith)

short_buckets : (q : ℕ) → q ≤ 31 → length (world.ready_queue.bucket q) ≤ 1
short_buckets q l = ground arith

no_factor : (n : ℕ) → passes (threads n) ≡ true
no_factor n = ground arith

aging-off_example : aging 1 50 world ≡ done world
aging-off_example = aging-off 1 50 world world-Consistent short_buckets no_factor

-- A ready thread with an aging factor that stands behind thread 2.
abbrev behind : World
behind =
    set_tcb 5
      (record (threads 1) {
        aging_factor = 1;
        priority = 5;
        old_priority = 5;
        cur_priority = some 5;
      })
      world

age_bucket-stuck_example : age_bucket 7 50 2 5 behind ≢ done behind
age_bucket-stuck_example = age_bucket-stuck 50 2 5 (ground arith) 7 behind behind refl

abbrev worker : ℕ
worker = 1

-- Thread 1 has entered and taken the semaphore.
abbrev at_door : Sem
at_door = record { count = pos 1; place = at 1 (trying false) (λ t. outside) }

abbrev in_section : Sem
in_section = record {
  count = (atomic_down (pos 1)).0;
  place = at 1 (after_down false (atomic_down (pos 1)).1) at_door.place;
}

entered : Reach start in_section
unfolding start
entered =
    step at_door in_section (step start at_door here (enters start 1 refl))
      (tries at_door 1 false refl)

Reach-one_example : worker ≡ worker
unfolding atomic_down entered
Reach-one_example = Reach-one in_section worker worker entered ((tt, tt), tt) refl refl

-- A free mutex, which thread 2 takes; then threads 1 and 2 try.
abbrev free_mutex : Mutex
free_mutex = record { futx = some up; owner_tid = 0 }

two_taken : (lock_attempt true 2 world free_mutex).1 ≡ taken
unfolding lock_attempt
two_taken = refl

abbrev attempts : List (ℕ × World)
attempts = (1, world) ∷ (2, world) ∷ []

taken-outcomes_example :
    All (λ a. a ≢ taken) (outcomes attempts (lock_attempt true 2 world free_mutex).0)
taken-outcomes_example = taken-outcomes 2 world free_mutex two_taken attempts

abbrev new_task : Task
new_task = record { function = 77; arg = 0; priority = pos 12 }

abbrev initialised : Globals
initialised = record { is_init = true; is_idle = true }

-- Thread 2, which thread 3 has joined.
abbrev joined : World
joined = set_tcb 2 (record (threads 2) { blocked_for_join = 3 }) world

joined-Valid : Valid 1 joined
joined-Valid =
    set_tcb-Valid 1 world 2 (record (threads 2) { blocked_for_join = 3 }) world-Valid refl refl
      (omega arith) (λ h. ground arith)

three_not_two : Apart 3 2
three_not_two = ground arith

exit_start-Exited_example : Returns (Exited 1 2 55 two_real two_below 3) (exit_start 2 55 joined)
exit_start-Exited_example =
    exit_start-Exited 1 2 55 two_real two_below joined joined-Valid three_not_two
