-- ===== src/System/Reaches.antt =====
-- Runs of the library: sections of calls and of pool workers, yields and exits one after another, of whatever
-- threads.
use pthipth.Prelude.{
  ℕ, ◌<◌, ap, arith, Option, ◌≤◌, ◌≡◌, ◌≢◌, if◌then◌else◌, refl, sym, subst, Bool, true, false, inl,
  inr, none, some, ℤ, pos, negsuc, minus_one,
}
use pthipth.World.{World, Count, up, down, waiting, set_tcb, blocked, defunct, same_state, is_some}
use pthipth.World.Moves.{Returns}
use pthipth.Aging.{Run, done, fault, out_of_fuel, ◌>>=◌}
use pthipth.Yield.{dispatcher, yield, resume, take_left}
use pthipth.Yield.Dispatch.{Sole}
use pthipth.Yield.Upkeep.{Only, Upkept, Dispatched, Settled, dispatcher-Dispatched}
use pthipth.Yield.Ends.{NoAging, dispatcher-Settled}
use pthipth.System.{Call, perform}
use pthipth.System.Kept.{write-Upkept}
use pthipth.Threads.{Task}
use pthipth.Mutex.{Mutex, unlock}
use pthipth.Pool.{Pool, waits as pool_waits, begin_task, end_task}
use pthipth.Pool.Ring.{IsRing}
use pthipth.System.Calls.{Calls}
use pthipth.System.Locks.{LeavesMutex, unlock-Upkept}
use pthipth.System.Workers.{Works, Ends, begin_task-Works, end_task-Ends}
use pthipth.System.Perform.{Permitted, perform-Upkept}

-- A step of the thread `n` from the state `w`, and the thread that goes on.
pub data Step (idle : ℕ) : ℕ → World → ℕ → World → Type 0 where
  calls :
      (n : ℕ) (w w' : World) (c : Call)
      → Permitted idle n c w
      → perform c n w ≡ some w'
      → Step idle n w n w'
  -- The `pthipth_mutex_unlock` of `pthipth_cond_wait`, which has blocked the thread by then
  unlocks :
      (n : ℕ) (w w' : World) (m m' : Mutex) (z : ℤ)
      → (w.tcb n).state ≡ blocked
      → n ≢ idle
      → is_some m.futx ≡ true
      → (w.tcb n).old_priority < 31
      → unlock true (w.tcb n).tid w m ≡ some (w', m', z)
      → Step idle n w n w'
  -- The sections of a worker of a pool before and after it runs a task
  begins :
      (n : ℕ) (w w' : World) (p p' : Pool) (o : Option Task)
      → IsRing p
      → Calls idle n w
      → pool_waits p ≡ false
      → (p.shutdown ≡ false → (p.queue p.head).priority ≢ pos 31)
      → begin_task n p w ≡ some (p', w', o)
      → Step idle n w n w'
  ends :
      (n : ℕ) (w w' : World) (p p' : Pool)
      → IsRing p
      → Calls idle n w
      → end_task n p w ≡ some (p', w')
      → Step idle n w n w'
  -- `pthipth_yield`, which returns at once, or waits and lets another thread go on
  stays :
      (n : ℕ) (w w' : World) (fuel t_sleep t_aging t_select : ℕ)
      → yield fuel t_sleep t_aging t_select n w ≡ done (w', false)
      → Step idle n w n w'
  waits :
      (n : ℕ) (w w' : World) (fuel t_sleep t_aging t_select : ℕ)
      → yield fuel t_sleep t_aging t_select n w ≡ done (w', true)
      → Step idle n w w'.current w'
  -- The end of a `pthipth_yield` that has waited
  resumes : (n : ℕ) (w w' : World) (slept : Bool) → resume n slept w ≡ some w' → Step idle n w n w'
  -- The end of `pthipth_exit`
  leaves :
      (n : ℕ) (w w' : World) (fuel t_sleep t_aging t_select : ℕ)
      → dispatcher fuel t_sleep t_aging t_select n w ≡ done (w', pos 0)
      → Step idle n w w'.current w'

pub data Reach (idle : ℕ) (n : ℕ) (w : World) : ℕ → World → Type 0 where
  here : Reach idle n w n w
  step :
      (n' n'' : ℕ) (w' w'' : World)
      → Reach idle n w n' w'
      → Step idle n' w' n'' w''
      → Reach idle n w n'' w''

module _ (idle : ℕ) where
  Sole-Only : (w : World) (n : ℕ) → Sole w n → Only w n
  Sole-Only w n s = s.1

  -- What the dispatcher leaves, by its result.
  stayed :
      (n : ℕ) (w : World) (z : ℤ) → z ≢ pos 0 → Dispatched idle n (done (w, z)) → Upkept idle n w
  stayed n w z ne (k, (m, s, h)) = elim h [
    | inl (e, i) ↦ (k, subst (Only w) e s.1)
    | inr (e, i, c, f) ↦ elim (ne i) [ ]
  ]

  went :
      (n : ℕ) (w : World) (z : ℤ)
      → z ≢ minus_one
      → Dispatched idle n (done (w, z))
      → Upkept idle w.current w
  went n w z ne (k, (m, s, h)) = elim h [
    | inl (e, i) ↦ elim (ne i) [ ]
    | inr (e, i, c, f) ↦ (k, subst (Only w) (sym c) s.1)
  ]

  pub write_futex :
      (m n : ℕ) (c : Count) (w : World)
      → Upkept idle m w
      → Upkept idle m (set_tcb n (record (w.tcb n) { sched_futex = c }) w)
  write_futex m n c w u =
      write-Upkept idle m w n (record (w.tcb n) { sched_futex = c }) refl refl refl refl
        (u.0.valid.priority_lem n) (u.0.valid.below_idle n) u

  abbrev Current : World → Type 0
  Current w = Upkept idle w.current w

  take_left-Upkept : (n : ℕ) (w : World) → Upkept idle w.current w → Current (take_left n w)
  unfolding take_left
  take_left-Upkept n w u = by_count (w.tcb n).sched_futex
    where
      by_count :
          (c : Count)
          → Current (elim c [
            | up ↦ set_tcb n (record (w.tcb n) { sched_futex = down }) w
            | down ↦ w
            | waiting ↦ w
          ])
      by_count up = write_futex w.current n down w u
      by_count down = u
      by_count waiting = u

  resume-Upkept :
      (n : ℕ) (slept : Bool) (w w' : World)
      → resume n slept w ≡ some w'
      → Upkept idle n w
      → Upkept idle n w'
  unfolding resume
  resume-Upkept n slept w w' e u = by_count (w.tcb n).sched_futex e
    where
      by_count :
          (c : Count)
          → (elim c [
            | up ↦
                some
                  (set_tcb n (record (w.tcb n) { sched_futex = if slept then waiting else down }) w)
            | down ↦ none
            | waiting ↦ none
          ])
            ≡ some w'
          → Upkept idle n w'
      by_count up e =
          subst (Returns (Upkept idle n)) e (write_futex n n (if slept then waiting else down) w u)
      by_count down e = cc
      by_count waiting e = cc

  -- What a yield leaves: the caller goes on, or the current thread.
  abbrev Yielded : ℕ → Run (World × Bool) → Type 0
  Yielded n fault = ⊥
  Yielded n out_of_fuel = Unit
  Yielded n (done (w, false)) = Upkept idle n w
  Yielded n (done (w, true)) = Upkept idle w.current w

  pub yield-Yielded :
      (fuel t_sleep t_aging t_select n : ℕ) (w : World)
      → Upkept idle n w
      → Yielded n (yield fuel t_sleep t_aging t_select n w)
  unfolding yield
  yield-Yielded fuel t_sleep t_aging t_select n w u =
      after (dispatcher fuel t_sleep t_aging t_select n w)
        (dispatcher-Dispatched idle n fuel t_sleep t_aging t_select w u.0 u.1)
    where
      after :
          (r : Run (World × ℤ))
          → Dispatched idle n r
          → Yielded n (
              r >>= λ r. elim r.1 [
                | negsuc k ↦ done (r.0, false)
                | pos k ↦ done (take_left n r.0, true)
              ])
      after fault d = d
      after out_of_fuel d = tt
      after (done (w', negsuc k)) d = stayed n w' (negsuc k) (λ e. cc) d
      after (done (w', pos k)) d = take_left-Upkept n w' (went n w' (pos k) (λ e. cc) d)

  begun :
      (n : ℕ) (p : Pool) (w : World) (p' : Pool) (w' : World) (o : Option Task)
      → Works idle n p w (some (p', w', o))
      → Upkept idle n w
      → Upkept idle n w'
  begun n p w p' w' none k u = subst (Upkept idle n) (sym k.2) u
  begun n p w p' w' (some t) k u = k.1

  Step-Upkept :
      (n n' : ℕ) (w w' : World) → Step idle n w n' w' → Upkept idle n w → Upkept idle n' w'
  Step-Upkept _ _ _ _ (calls n w w' c p e) u =
      subst (Returns (Upkept idle n)) e (perform-Upkept idle n c w p u)
  Step-Upkept _ _ _ _ (unlocks n w w' m m' z s i made l e) u =
      let h : n ≢ 0 = ground (arith, u.0.valid.consistent.null_lem, s) in
      subst (LeavesMutex idle n) e
        (unlock-Upkept idle n true m w made l h i (ap (λ s. same_state s defunct) s) u)
  Step-Upkept _ _ _ _ (begins n w w' p p' o r c g q e) u =
      begun n p w p' w' o (subst (Works idle n p w) e (begin_task-Works idle n p w r c u g q)) u
  Step-Upkept _ _ _ _ (ends n w w' p p' r c e) u =
      (subst (Ends idle n p) e (end_task-Ends idle n p w r c u)).0
  Step-Upkept _ _ _ _ (stays n w w' fuel t_sleep t_aging t_select e) u =
      subst (Yielded n) e (yield-Yielded fuel t_sleep t_aging t_select n w u)
  Step-Upkept _ _ _ _ (waits n w w' fuel t_sleep t_aging t_select e) u =
      subst (Yielded n) e (yield-Yielded fuel t_sleep t_aging t_select n w u)
  Step-Upkept _ _ _ _ (resumes n w w' slept e) u = resume-Upkept n slept w w' e u
  Step-Upkept _ _ _ _ (leaves n w w' fuel t_sleep t_aging t_select e) u =
      went n w' (pos 0) (λ i. cc)
        (subst (Dispatched idle n) e
          (dispatcher-Dispatched idle n fuel t_sleep t_aging t_select w u.0 u.1))

  -- In every state that is reached from one that keeps the invariant of the library, the invariant holds: each
  -- thread is in the queue of its state and nowhere else, the tree is balanced, sorted and has every thread
  -- that has not ended, and no thread but the one whose step is next runs. The steps, of whatever threads one
  -- after another, are the yields, the ends of threads, and the sections of calls and of pool workers that
  -- are permitted: the caller runs, or is blocked in the unlock of `pthipth_cond_wait`, and is not the idle
  -- thread; `pthipth_set_prio`, and at an unlock the old priority of the owner, have a priority of the table
  -- other than the idle thread's; a mutex to unlock is initialised; a new thread is made without a failure,
  -- with a control block and an id that are not in use; a thread that is freed has ended and nobody else
  -- frees it; the thread that has joined one that exits has not ended; and a worker does not wait, its ring
  -- of tasks is well formed, and the task that it takes has not the priority of the idle thread.
  pub Reach-Upkept :
      (n : ℕ) (w : World) (n' : ℕ) (w' : World)
      → Upkept idle n w
      → Reach idle n w n' w'
      → Upkept idle n' w'
  Reach-Upkept n w _ _ u here = u
  Reach-Upkept n w _ _ u (step n' n'' w' w'' r s) =
      Step-Upkept n' n'' w' w'' s (Reach-Upkept n w n' w' u r)

  -- From every state that is reached and in which no thread has an aging factor, the dispatcher ends, if
  -- its fuel is enough: one thread runs, the caller or the one that is woken up.
  pub Reach-Settled :
      (n : ℕ) (w : World) (n' : ℕ) (w' : World)
      → Upkept idle n w
      → Reach idle n w n' w'
      → NoAging w'
      → (t_sleep t_aging t_select : ℕ)
      → (bound : ℕ) × ((fuel : ℕ)
          → bound ≤ fuel
          → Settled idle n' (dispatcher fuel t_sleep t_aging t_select n' w'))
  Reach-Settled n w n' w' u r a t_sleep t_aging t_select =
      let (k, o) = Reach-Upkept n w n' w' u r in
      dispatcher-Settled idle n' t_sleep t_aging t_select w' k o a
