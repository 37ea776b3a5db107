-- ===== src/System/Workers.antt =====
-- The sections of the workers of src/pthipth_pool.c keep the invariant of the library and the ring of tasks.
use pthipth.Prelude.{
  ℕ, suc, ◌-◌, ◌<◌, ◌≡◌, ◌≢◌, refl, sym, ap, subst, if_true, if_false, true, false, Bool-cases, inl,
  inr, Option, none, some, ◌∷◌, ◌>>=◌, arith, ℤ, pos, negsuc,
}
use pthipth.World.{World, highest_priority}
use pthipth.World.Moves.{Returns}
use pthipth.Threads.{Task}
use pthipth.Pool.{Pool, task_priority, assume, take, waits, begin_task, end_task}
use pthipth.Pool.Ring.{IsRing, contents, take-contents}
use pthipth.Yield.Upkeep.{Upkept}
use pthipth.System.Calls.{Calls, caller-real}
use pthipth.System.Locks.{prioritise, runs-queued}

-- Of a task whose priority is not that of the idle thread, the worker's priority is below it.
task_priority_below : (z : ℤ) → z ≢ pos 31 → task_priority z < 31
unfolding task_priority
task_priority_below (negsuc n) h = omega arith
task_priority_below (pos n) h = let other : n ≢ 31 = λ e. h (ap pos e) in ground arith

then_some :
    {A : Type 0} (P : World → Type 0) (Q : Option A → Type 0) (f : World → A) (o : Option World)
    → Returns P o
    → ((w : World) → P w → Q (some (f w)))
    → Q (o >>= λ w. some (f w))
then_some P Q f none r k = absurd r
then_some P Q f (some w) r k = k w r

-- After the first section of a worker: it has ended, where the pool is shut down, or it has the first task.
abbrev pub Works : (idle n : ℕ) → Pool → World → Option (Pool × World × Option Task) → Type 0
Works idle n p w none = ⊥
Works idle n p w (some (p', w', none)) =
    (p.shutdown ≡ true)
    × (p'.started ≡ p.started - 1)
    × (w' ≡ w)
    × IsRing p'
    × (contents p' ≡ contents p)
Works idle n p w (some (p', w', some t)) =
    (p.shutdown ≡ false)
    × Upkept idle n w'
    × IsRing p'
    × (contents p ≡ t ∷ contents p')
    × (p'.task_in_progess ≡ suc p.task_in_progess)

-- After the second one.
abbrev pub Ends : (idle n : ℕ) → Pool → Option (Pool × World) → Type 0
Ends idle n p none = ⊥
Ends idle n p (some (p', w')) =
    Upkept idle n w'
    × IsRing p'
    × (contents p' ≡ contents p)
    × (p'.task_in_progess ≡ p.task_in_progess - 1)

module _ (idle n : ℕ) (p : Pool) (w : World) (r : IsRing p) (c : Calls idle n w)
    (u : Upkept idle n w) where
  assume-Upkept : (priority : ℕ) → priority < 31 → Returns (Upkept idle n) (assume n priority w)
  unfolding assume
  assume-Upkept q l =
      prioritise idle n w n (record (w.tcb n) { priority = q; init_priority = q; old_priority = q })
        (caller-real idle n w u c) c.1 refl refl refl refl l (runs-queued idle n (w.tcb n) c.0) u

  -- A worker that runs and does not wait, at a task whose priority is not the idle thread's: its first
  -- section faults nowhere. If the pool is shut down, the worker has ended, and the ring and the threads are as
  -- they were; if not, it has the first task of the ring, which keeps the others, and the invariant of the
  -- library is kept.
  pub begin_task-Works :
      waits p ≡ false
      → (p.shutdown ≡ false → (p.queue p.head).priority ≢ pos 31)
      → Works idle n p w (begin_task n p w)
  unfolding begin_task waits
  begin_task-Works e h = elim (Bool-cases p.shutdown) [
    | inl s ↦ subst (Works idle n p w) (sym (if_true p.shutdown _ _ s)) (
      s,
      refl,
      refl,
      record { head_lem = r.head_lem; count_lem = r.count_lem; tail_lem = r.tail_lem },
      refl,
    )
    | inr s ↦
        let some_task : p.count ≡ suc (p.count - 1) = ground arith in
        let (q, f) = take-contents p r (p.count - 1) some_task in
        subst (Works idle n p w) (sym (if_false p.shutdown _ _ s)) (
          then_some (Upkept idle n) (Works idle n p w)
            (λ w'. (
              record (take p) { task_in_progess = suc p.task_in_progess },
              w',
              some (p.queue p.head),
            ))
            _
            (assume-Upkept (task_priority (p.queue p.head).priority) (task_priority_below _ (h s)))
            λ w' v. (
              s,
              v,
              record { head_lem = q.head_lem; count_lem = q.count_lem; tail_lem = q.tail_lem },
              f,
              refl,
            ))
  ]

  -- Its second section faults nowhere, keeps the invariant of the library, and leaves the ring as it is.
  pub end_task-Ends : Ends idle n p (end_task n p w)
  unfolding end_task
  end_task-Ends =
      then_some (Upkept idle n) (Ends idle n p)
        (λ w'. (record p { task_in_progess = p.task_in_progess - 1 }, w')) _
        (assume-Upkept highest_priority (omega arith))
        λ w' v. (
          v,
          record { head_lem = r.head_lem; count_lem = r.count_lem; tail_lem = r.tail_lem },
          refl,
          refl,
        )
