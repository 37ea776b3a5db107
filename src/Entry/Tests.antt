-- ===== src/Entry/Tests.antt =====
-- Runs of the theorems on src/pthipth_wrapper.c and on the clock of src/pthipth_utils.c.
use pthipth.World.{World, set_tcb, up}
use pthipth.Clock.{Timespec}
use pthipth.Entry.Enters.{Enters}
use pthipth.System.Example.{whole}

abbrev early : Timespec
early = record { tv_sec = 3; tv_nsec = 999999999 }

abbrev late : Timespec
late = record { tv_sec = 4; tv_nsec = 1 }

-- Thread 2, whose futex is down, is handed the processor and starts.
abbrev handed : World
handed = set_tcb 2 (record (whole.tcb 2) { sched_futex = up }) whole
