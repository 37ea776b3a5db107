-- ===== src/Mutex.antt =====
-- src/pthipth_mutex.c, and `__pthipth_get_prio` and `pthipth_set_prio` of src/pthipth_set.c and
-- src/pthipth_get.c, which change or read a priority alike. The functions work on one mutex; `exists` is
-- whether its pointer is not NULL. The atomic exchanges of src/futex_inline.h are one step each.
pub mod Locks
pub mod Excludes
use pthipth.Prelude.{
  ℕ, suc, ◌-◌, Bool, true, false, not, Option, none, some, ◌==◌, ◌&&◌, ◌||◌, if◌then◌else◌, ◌>>=◌,
  ℤ, pos, negsuc, incr, decr, is_zero, minus_one,
}
use pthipth.Avl.{search_tid}
use pthipth.World.{
  Tcb, World, is_some, Count, up, down, waiting, running, same_state, set_tcb, bq_reinsert,
  highest_priority,
}

-- `futx` is `none` for NULL; 0 in `owner_tid` is nobody.
pub record Mutex : Type 0 where
  pub futx : Option Count
  pub owner_tid : ℕ

-- `EBUSY`
abbrev ebusy : ℤ
ebusy = pos 16

-- `__futex_down`: the count after it, and the result.
abbrev pub count_down : Count → Count × ℤ
count_down up = (down, pos 0)
count_down down = (waiting, minus_one)
count_down waiting = (waiting, minus_one)

-- `pthipth_mutex_init`; `memory` is whether `malloc` gives it.
unfoldable pub init : (exists memory : Bool) → Mutex → Mutex × ℤ
init false memory m = (m, minus_one)
init true memory m = elim m.futx [
  | some c ↦ (m, minus_one)
  | none ↦ if memory then (record { futx = some up; owner_tid = 0 }, pos 0) else (m, minus_one)
]

-- How an attempt to lock ends: with an error, with another turn of the loop after a `pthipth_yield`, or
-- with the mutex taken, which `lock_taken` then goes on from.
pub data Attempt : Type 0 where
  error again taken : Attempt

abbrev pub attempt_at : Mutex → Count × ℤ → Mutex × Attempt
attempt_at m (c, pos n) = (record m { futx = some c }, if n == 0 then taken else again)
attempt_at m (c, negsuc n) = (record m { futx = some c }, again)

-- `pthipth_mutex_lock`: its tests and one turn of its loop.
unfoldable pub lock_attempt : (exists : Bool) (self : ℕ) → World → Mutex → Mutex × Attempt
lock_attempt false self w m = (m, error)
lock_attempt true self w m = elim m.futx [
  | none ↦ (m, error)
  | some c ↦
      if (self == 0) || (m.owner_tid == (w.tcb self).tid)
      then (m, error)
      else attempt_at m (count_down c)
]

-- The rest of `pthipth_mutex_lock`, under the global futex.
unfoldable pub lock_taken : (self gettid : ℕ) → World → Mutex → Option (World × Mutex)
lock_taken self gettid w m = do
  w ← bq_reinsert self (set_tcb self (record (w.tcb self) { priority = highest_priority - 1 }) w)
  some (
    set_tcb self (record (w.tcb self) { mutex_count = incr (w.tcb self).mutex_count }) w,
    record m { owner_tid = gettid },
  )

-- `pthipth_mutex_trylock`, with its test as the code has it; `none` is the NULL that it goes on with.
unfoldable pub trylock : (exists : Bool) (self : ℕ) → World → Mutex → Option (Mutex × ℤ)
trylock false self w m = some (m, minus_one)
trylock true self w m = elim m.futx [ some c ↦ some (m, minus_one) | none ↦ none ]

-- `owner->mutex_count--` and the priority that comes back with the last mutex.
unfoldable pub give_back : ℕ → World → Option World
give_back owner w =
    let w' =
      set_tcb owner (record (w.tcb owner) { mutex_count = decr (w.tcb owner).mutex_count }) w in
    if is_zero (w'.tcb owner).mutex_count && same_state (w'.tcb owner).state running
    then bq_reinsert owner
        (set_tcb owner (record (w'.tcb owner) { priority = (w'.tcb owner).old_priority }) w')
    else some w'

-- The section of `pthipth_mutex_unlock` under the global futex.
unfoldable pub unlock_owned : World → Mutex → Option (World × Mutex × ℤ)
unlock_owned w m =
    let owner = search_tid m.owner_tid w.avl_root in
    if (owner == 0) || not (is_some m.futx)
    then none
    else (do w ← give_back owner w; some (w, record { futx = some up; owner_tid = 0 }, pos 0))

-- `pthipth_mutex_unlock`
unfoldable pub unlock : (exists : Bool) (gettid : ℕ) → World → Mutex → Option (World × Mutex × ℤ)
unlock false gettid w m = some (w, m, minus_one)
unlock true gettid w m =
    if m.owner_tid == 0
    then some (w, m, pos 0)
    else if not (m.owner_tid == gettid)
    then some (w, m, minus_one)
    else unlock_owned w m

-- `pthipth_mutex_destroy`
unfoldable pub destroy : (exists : Bool) → Mutex → Mutex × ℤ
destroy false m = (m, minus_one)
destroy true m = elim m.futx [
  | none ↦ (m, minus_one)
  | some c ↦ if not (m.owner_tid == 0) then (m, ebusy) else (record m { futx = none }, pos 0)
]

-- `pthipth_set_prio`; a priority outside the table, as a negative one is, is a fault.
unfoldable pub set_prio : (self : ℕ) (new_priority : ℤ) → World → Option (World × ℤ)
set_prio self (negsuc k) w = if self == 0 then some (w, minus_one) else none
set_prio self (pos priority) w = if self == 0 then some (w, minus_one) else (do
  w ←
      bq_reinsert self
        (set_tcb self (record (w.tcb self) { priority = priority; old_priority = priority }) w)
  some (w, pos priority))

-- `pthipth_get_prio`, `pthipth_get_stack_size`, `pthipth_get_time_quota`, `pthipth_get_aging_factor` and
-- `pthipth_get_aging_time`: a field of the current thread, or what they return for none.
abbrev get_field : (Tcb → ℕ) → ℤ → World → ℤ
get_field field missing w = if w.current == 0 then missing else pos (field (w.tcb w.current))

unfoldable pub get_prio : World → ℤ
get_prio w = get_field (λ t. t.priority) minus_one w

unfoldable pub get_stack_size : World → ℤ
get_stack_size w = if w.current == 0 then pos 0 else (w.tcb w.current).stack_size

unfoldable pub get_time_quota : World → ℤ
get_time_quota w = get_field (λ t. t.time_quota) minus_one w

unfoldable pub get_aging_factor : World → ℤ
get_aging_factor w = get_field (λ t. t.aging_factor) minus_one w

unfoldable pub get_aging_time : World → ℤ
get_aging_time w = get_field (λ t. t.aging_time) minus_one w
