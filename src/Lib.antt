-- ===== src/Lib.antt =====
-- pthipth: user-level threads for Linux, scheduled by the library one at a time over kernel threads.
--
-- The program keeps a thread control block (TCB) for each thread, in an AVL tree by thread id, and a
-- thread stands in at most one queue: a bucket queue of one circular list for each priority for the ready and
-- running threads, and doubly linked queues for the blocked, the sleeping and the detached defunct
-- ones. Every operation works under one semaphore, `global_futex`; a thread gives up the processor in
-- `pthipth_yield`, whose dispatcher wakes sleepers, ages priorities, frees detached threads, and
-- hands over to the first thread of the lowest bucket in use.
--
-- The files, with the code that they model (paths from the root of the repository):
--   Prelude      shared names, Boolean tests, lists, integers
--   Links        doubly linked chains of addresses, for Queue and Bq
--   Avl          src/pthipth_avl.c: trees, with the way up as a list of crumbs for the parent pointers
--   Queue        src/pthipth_queue.c: the pointers, when they hold a list (Queue.Represents), and the display
--   Bq           src/pthipth_bq.c: the pointers, when they hold the buckets of Ready, the search and the
--                display (Bq.Search)
--   Ready        the bucket queue as lists and bits, the abstract view of Bq (Bq.Represents)
--   World        src/pthipth_internal_type.h, src/pthipth_utils.c, src/pthipth_self.c: the state of the
--                library, and `__pthipth_change_to_state`; its queues are lists, the abstract view of
--                Queue and Bq. World.Valid is the invariant that the components share.
--   Sleep        src/pthipth_sleep.c
--   Cond         src/pthipth_cond.c
--   Barrier      src/pthipth_barrier.c
--   Aging        src/pthipth_aging.c
--   Yield        src/pthipth_yield.c, `__pthipth_check_detach` of src/pthipth_detach.c, `__pthipth_free`
--   Mutex        src/pthipth_mutex.c, src/pthipth_set.c, src/pthipth_get.c
--   Threads      src/pthipth_create.c, src/pthipth_init.c; Threads.Finish has src/pthipth_exit.c,
--                src/pthipth_join.c and src/pthipth_detach.c
--   Pool         src/pthipth_pool.c; Pool.Life has the workers' beginning and end
--   Futex        src/futex.h, src/futex_inline.h: the semaphore between threads; Futex.Slow has the loop of one
--                thread, with src/futex.c
--   Store        `__pthipth_change_to_state` by the pointers of Queue and Bq, for which World has lists
--   Clock        the clock and the interval timer of src/pthipth_utils.c
--   Entry        src/pthipth_wrapper.c
--   System       the sections that the calls run under `global_futex`, and the yields between them, one
--                after another, of whatever threads: runs of the whole library; System.Workers has the
--                sections of the pool's workers
--   Scanf        src/pthipth_scanf.c
--   Signal       src/pthipth_signal.c, src/pthipth_signal.h
--   Programs     test/test_queue.c, test/test_avl.c, test/test_bq.c
--   Tests        runs of the theorems on small states
--
-- An operation is a function of the state of the library, named as in the code less its prefix. A
-- section under `global_futex`, the semaphore of Futex, is one step, as if no wait at it ended with an
-- error, so an operation that blocks or yields is split where it does: the result says how it goes on.
-- `none` is a fault: a dereference of NULL, an index outside a table, `__builtin_ctz(0)`. Addresses
-- are numbers and 0 is NULL. The TLS variable `cur_pthipth` is one variable for all threads here
-- (`current`), since `clone` is called without CLONE_SETTLS and the threads share the thread pointer.
-- What the system answers (the clock, thread ids, `clone`, `mmap`, `calloc`) is a parameter.
--
-- Numbers: a time is taken modulo 2 ^ 64 and a priority modulo 2 ^ 32 where the aging computes it; other
-- numbers count threads, tasks or nodes, of which there are far fewer than the types can count. The loops
-- over queues and trees are recursions on lists and trees. The inner loop of the aging runs on fuel, which
-- is a parameter, since no amount is enough in every state (Aging.Loop, Aging.Off). The displays
-- and the search of the bucket queue follow pointers on fuel too, one unit for each node (Bq.Search,
-- Queue.Display). A list of answers of the system bounds the loops of Futex.Slow and Scanf.
--
-- Not modelled: at which points an alarm of the timer interrupts a thread, since its handler calls a
-- function that the repository does not define; the programs of demo/, which print what threads do; the
-- release of memory. The loop of src/pthipth_idle.c only yields, and is a step of System.
pub mod Prelude
pub mod Avl
pub mod Links
pub mod Queue
pub mod Ready
pub mod Bq
pub mod World
pub mod Sleep
pub mod Cond
pub mod Barrier
pub mod Aging
pub mod Yield
pub mod Mutex
pub mod Threads
pub mod Pool
pub mod Futex
pub mod System
pub mod Store
pub mod Clock
pub mod Entry
pub mod Scanf
pub mod Signal
pub mod Programs
pub mod Tests
