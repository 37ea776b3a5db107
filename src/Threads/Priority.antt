-- ===== src/Threads/Priority.antt =====
-- The priority that src/pthipth_create.c gives to a thread, and what it registers.
use pthipth.Prelude.{ℕ, ◌≤◌, ◌≡◌, Bool, true, false, ◌==◌, if◌then◌else◌, arith, ℤ, pos, negsuc}
use pthipth.World.{highest_priority, lowest_priority}
use pthipth.Threads.{priority_of}

-- Once the idle thread is there, the priority of a new thread is one that users may have.
pub priority_of_bounds :
    (z : ℤ) → (highest_priority ≤ priority_of true z) × (priority_of true z ≤ lowest_priority)
unfolding priority_of
priority_of_bounds (negsuc n) = (omega arith, omega arith)
priority_of_bounds (pos n) = ground arith

-- A priority up to `LOWEST_PRIORITY` is kept, but for 0, which becomes the highest one and not the
-- default.
pub priority_of_kept :
    (n : ℕ) (is_idle : Bool)
    → n ≤ lowest_priority
    → priority_of is_idle (pos n) ≡ (if n == 0 then highest_priority else n)
unfolding priority_of
priority_of_kept n true h = ground arith
priority_of_kept n false h = ground arith
