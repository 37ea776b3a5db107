-- ===== src/Entry/Enters.antt =====
-- How a thread starts, in src/pthipth_wrapper.c.
use pthipth.Prelude.{ℕ, ◌<◌, ◌≡◌, Option, none, some, ◌==◌, if◌then◌else◌}
use pthipth.World.{World}
use pthipth.Clock.{to_ms}
use pthipth.Yield.Upkeep.{Upkept}
use pthipth.Entry.{Called}

-- The thread is the current one, both times of its timer are its quota, and it calls its function, if there is one.
abbrev pub Enters : (idle n function arg quota : ℕ) → Option Called → Type 0
Enters idle n function arg quota none = ⊥
Enters idle n function arg quota (some c) =
    Upkept idle n c.world
    × (c.world.current ≡ n)
    × (to_ms c.timer.it_value ≡ quota)
    × (to_ms c.timer.it_interval ≡ quota)
    × (c.timer.it_value.tv_usec < 1000000)
    × (c.timer.it_interval.tv_usec < 1000000)
    × (c.call ≡ (if function == 0 then none else some (function, arg)))
