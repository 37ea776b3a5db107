-- ===== src/Store.antt =====
-- The pointers of the whole library: the bucket queue of src/pthipth_bq.c and the three state queues of
-- src/pthipth_queue.c, which share the links `prev2` and `next2` of the nodes, and
-- `__pthipth_change_to_state` of src/pthipth_utils.c on them. `none` is a dereference of NULL.
pub mod Shows
pub mod Buckets
pub mod Queues
pub mod Enters
pub mod Refines
mod Tests
use pthipth.Prelude.{ℕ, Option, none, some, if◌then◌else◌, ◌>>=◌}
use pthipth.Ready.{put}
use pthipth.World.{ThreadState, ready, running, blocked, sleeping, defunct, same_state}
use pthipth.Queue
use pthipth.Queue.{Queue}
use pthipth.Bq
use pthipth.Bq.{Bq}

-- The two ends of a state queue.
pub record Ends : Type 0 where
  pub head : ℕ
  pub tail : ℕ

pub record Store : Type 0 where
  pub bq : Bq
  pub state : ℕ → ThreadState
  pub prev2 : ℕ → ℕ
  pub next2 : ℕ → ℕ
  pub blocked_state : Ends
  pub sleeping_state : Ends
  pub defunct_state : Ends

-- A state queue with the links, and the links after an operation on it.
abbrev pub queue_at : Ends → Store → Queue
queue_at e s = record { head = e.head; tail = e.tail; prev2 = s.prev2; next2 = s.next2 }

abbrev pub ends_of : Queue → Ends
ends_of q = record { head = q.head; tail = q.tail }

abbrev pub with_links : Queue → Store → Store
with_links q s = record s { prev2 = q.prev2; next2 = q.next2 }

abbrev pub with_blocked : Queue → Store → Store
with_blocked q s = record (with_links q s) { blocked_state = ends_of q }

abbrev pub with_sleeping : Queue → Store → Store
with_sleeping q s = record (with_links q s) { sleeping_state = ends_of q }

-- The first `switch` of `__pthipth_change_to_state`.
unfoldable pub leave : ℕ → ThreadState → Store → Option Store
leave n blocked s = do q ← Queue.delete (queue_at s.blocked_state s) n; some (with_blocked q s)
leave n sleeping s = do q ← Queue.delete (queue_at s.sleeping_state s) n; some (with_sleeping q s)
leave n _ s = some s

unfoldable pub bq_insert : ℕ → Store → Option Store
bq_insert n s = do b ← Bq.insert s.bq n; some (record s { bq = b })

unfoldable pub bq_delete : ℕ → Store → Option Store
bq_delete n s = do b ← Bq.delete s.bq n; some (record s { bq = b })

-- The second `switch`.
unfoldable pub enter : ℕ → ThreadState → Store → Option Store
enter n blocked s = do
  s ← bq_delete n s
  q ← Queue.add (queue_at s.blocked_state s) n
  some (with_blocked q s)
enter n sleeping s = do
  s ← bq_delete n s
  q ← Queue.add (queue_at s.sleeping_state s) n
  some (with_sleeping q s)
enter n ready s = if same_state (s.state n) running then some s else bq_insert n s
enter n defunct s = bq_delete n s
enter n running s = some s

-- `__pthipth_change_to_state`
unfoldable pub change_to_state : ℕ → ThreadState → Store → Option Store
change_to_state n to_state s = if same_state (s.state n) to_state then some s else (do
  s ← leave n (s.state n) s
  s ← enter n to_state s
  some (record s { state = put s.state n to_state }))
