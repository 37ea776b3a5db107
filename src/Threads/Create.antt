-- ===== src/Threads/Create.antt =====
-- What src/pthipth_create.c registers: the new thread is ready, in its bucket and in the tree.
use pthipth.Prelude.{
  ℕ, ◌<◌, ◌≡◌, ◌≢◌, refl, sym, ap, subst, ◌∙◌, inr, true, false, Option, none, some, ◌==◌, arith,
  lt→ltb, ◌>>=◌, ℤ, pos,
}
use pthipth.Avl
use pthipth.Avl.{Tree}
use pthipth.Avl.Order.{entries, Sorted}
use pthipth.Avl.Balance
use pthipth.Avl.Balance.{IsAvl}
use pthipth.Avl.Insert.{Inserted, insert-put}
use pthipth.Ready
use pthipth.Ready.{buckets_count}
use pthipth.Ready.Shown.{insert-Shown, insert-bits}
use pthipth.World.{World, Tcb, ready, defunct, blocked, sleeping, same_state, set_tcb, bq_insert}
use pthipth.World.Moves.{Moves, Returns, Now-same}
use pthipth.World.Moves.Places.{insert-bucket}
use pthipth.World.Valid.{Valid, Moves-Valid, set_tcb-Valid, rest-Valid}
use pthipth.Threads.{Attr, Task, cloned, new_tcb, register, create_cloned, create}
use pthipth.Threads.Priority.{priority_of_bounds}

-- The thread is ready, the others are as they were, and the tree has the thread under its id.
abbrev pub Registered : (idle n : ℕ) (t : Tcb) → World → World → Type 0
Registered idle n t w w' =
    Valid idle w'
    × ((w'.tcb n).state ≡ ready)
    × ((m : ℕ) → m ≢ n → w'.tcb m ≡ w.tcb m)
    × Inserted t.tid n w.avl_root w'.avl_root
    × ((w'.tcb n).tid ≡ t.tid)
    × (w'.defunct_state ≡ w.defunct_state)

some-eq : {a b : ℕ} → some a ≡ some b → a ≡ b
some-eq e = cc

module _ (idle n : ℕ) (t : Tcb) (w : World) (v : Valid idle w) (h : n ≢ 0)
    (fresh : (w.tcb n).state ≡ defunct) (clean : (w.tcb n).cur_priority ≡ none)
    (p : t.priority < buckets_count) (i : n ≢ idle → t.priority ≢ 31) where
  abbrev started : Tcb
  started = record t { state = ready }

  -- The state before, with the fields of the new thread but its state.
  abbrev before : World
  before = set_tcb n (record t { state = defunct; cur_priority = none }) w

  before-Valid : Valid idle before
  before-Valid =
      set_tcb-Valid idle w n (record t { state = defunct; cur_priority = none }) v (sym fresh)
        (sym clean) p i

  -- The priority under which the code inserts it, and the state after that.
  abbrev key : ℕ
  key = ((set_tcb n started w).tcb n).priority

  abbrev after : World
  after =
      record (set_tcb n (record ((set_tcb n started w).tcb n) { cur_priority = some key })
        (set_tcb n started w)) { ready_queue = Ready.insert key n w.ready_queue }

  key-priority : key ≡ t.priority
  key-priority = ground arith

  bq_insert-after : bq_insert n (set_tcb n started w) ≡ some after
  unfolding bq_insert
  bq_insert-after =
      rw (lt→ltb key buckets_count (subst (λ q. q < buckets_count) (sym key-priority) p)) refl

  after-Moves : Moves before n ready after
  after-Moves =
      let old : (before.tcb n).priority ≡ t.priority = ground arith in
      let none_yet : (before.tcb n).cur_priority ≡ none = ground arith in
      let k = before-Valid.consistent in
      let d : (before.tcb n).state ≡ defunct = ground arith in
      record {
        cur = some key;
        cur_lem = λ e. inr (old ∙ sym key-priority ∙ some-eq e);
        tcb_lem = λ m. ground arith;
        blocked_lem =
            Now-same n _ w.blocked_state (k.blocked_lem n ∙ ap (λ o. same_state o blocked) d)
              k.blocked_Distinct;
        sleeping_lem =
            Now-same n _ w.sleeping_state (k.sleeping_lem n ∙ ap (λ o. same_state o sleeping) d)
              k.sleeping_Distinct;
        bucket_lem = insert-bucket before n h k key none_yet;
        queued_lem = refl;
        shown = insert-Shown key n w.ready_queue k.shown;
        idle_shown = insert-bits key n 31 w.ready_queue k.idle_shown;
      }

  with_tree :
      (o : Option Tree)
      → Avl.Balance.Returns (Inserted t.tid n w.avl_root) o
      → Returns
          (Registered idle n t w)
          (elim o [ none ↦ none | some r ↦ some (record after { avl_root = r }) ])
  with_tree none r = elim r [ ]
  with_tree (some t') r =
      let (u, g) = Moves-Valid idle before n h before-Valid ready after after-Moves in
      (
        rest-Valid idle after t' w.defunct_state w.current u,
        (ground arith),
        (λ m k. ground arith),
        r,
        (ground arith),
        refl,
      )

  -- The registration of a thread that was not known.
  register-Registered :
      IsAvl w.avl_root
      → Sorted (entries w.avl_root)
      → Returns (Registered idle n t w) (register n (set_tcb n started w))
  unfolding register
  register-Registered a o =
      let tid : (after.tcb n).tid ≡ t.tid = ground arith in
      rw bq_insert-after (
        with_tree (Avl.insert (after.tcb n).tid n w.avl_root) (
          subst (λ k. Avl.Balance.Returns (Inserted t.tid n w.avl_root) (Avl.insert k n w.avl_root))
            (sym tid) (insert-put t.tid n w.avl_root a o)))

-- `create` gives the id and 0, and the thread is registered.
abbrev pub Created : (P : World → Type 0) (tid : ℕ) → Option (World × ℤ × ℤ) → Type 0
Created P tid none = ⊥
Created P tid (some (w, id, z)) = P w × (id ≡ pos tid) × (z ≡ pos 0)

created :
    (P : World → Type 0) (tid : ℕ) (o : Option World)
    → Returns P o
    → Created P tid (o >>= λ w. some (w, pos tid, pos 0))
created P tid none r = elim r [ ]
created P tid (some w) r = (r, refl, refl)

pub create-Registered :
    (idle n default_stack now tid : ℕ) (attr : Option Attr) (task : Task) (id : ℤ) (w : World)
    (v : Valid idle w) (h : n ≢ 0) (fresh : (w.tcb n).state ≡ defunct)
    (clean : (w.tcb n).cur_priority ≡ none)
    → IsAvl w.avl_root
    → Sorted (entries w.avl_root)
    → Created (Registered idle n (new_tcb default_stack true tid now attr task) w) tid (
        create default_stack
          (record { is_init = true; is_idle = true })
          true
          true
          n
          now
          (cloned tid)
          attr
          task
          id
          w)
unfolding create create_cloned new_tcb
create-Registered idle n default_stack now tid attr task id w v h fresh clean a o =
    let real : (n == 0) ≡ false = ground arith in
    let bounds = priority_of_bounds task.priority in
    let t = new_tcb default_stack true tid now attr task in
    rw real (
      created (Registered idle n t w) tid (register n (set_tcb n t w)) (
        register-Registered idle n t w v h fresh clean (omega (arith, bounds.0, bounds.1))
          (λ k. omega (arith, bounds.1)) a o))
