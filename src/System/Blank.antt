-- ===== src/System/Blank.antt =====
-- The state before `pthipth_init` of src/pthipth_init.c, and how its two threads come into it.
use pthipth.Prelude.{
  ℕ, ◌<◌, ◌≡◌, refl, sym, ap, subst, ◌∙◌, false, Option, none, some, [], ◌>>=◌, arith, lt→ltb, pos,
}
use pthipth.Avl
use pthipth.Avl.{Tree}
use pthipth.Avl.Order.{entries, Sorted}
use pthipth.Avl.Balance
use pthipth.Avl.Balance.{IsAvl}
use pthipth.Avl.Insert.{Inserted, insert-put}
use pthipth.Ready
use pthipth.Ready.{Ready, buckets_count}
use pthipth.World.{World, Tcb, defunct, down, set_tcb, bq_insert}
use pthipth.Threads.{register}

-- Memory that no control block is in.
abbrev pub unused : Tcb
unused = record {
  tid = 0;
  tid_watch = 0;
  state = defunct;
  start_func = 0;
  arg = 0;
  return_value = 0;
  blocked_for_join = 0;
  sched_futex = down;
  priority = 0;
  init_priority = 0;
  old_priority = 0;
  wake_time = 0;
  last_selected = 0;
  time_quota = 0;
  aging_factor = 0;
  aging_time = 0;
  mutex_count = pos 0;
  current_cond = 0;
  current_barrier = 0;
  stack_size = pos 0;
  is_detach = false;
  cur_priority = none;
}

-- The state before the first call: the queues and the tree are empty.
abbrev pub blank : World
blank = record {
  tcb = λ n. unused;
  ready_queue = record { bucket = λ p. []; bits = λ p. false };
  blocked_state = [];
  sleeping_state = [];
  defunct_state = [];
  avl_root = Avl.leaf;
  current = 0;
}

-- A thread in its bucket, and with a tree.
abbrev pub inserted : (n : ℕ) → Tcb → Tree → World → World
inserted n t r w =
    let w1 = set_tcb n t w in
    let p = (w1.tcb n).priority in
    record (set_tcb n (record (w1.tcb n) { cur_priority = some p }) w1) {
      ready_queue = Ready.insert p n w.ready_queue;
      avl_root = r;
    }

abbrev with_tree : World → Option Tree → Option World
with_tree w o = elim o [ none ↦ none | some t ↦ some (record w { avl_root = t }) ]

register-some :
    (n : ℕ) (w w' : World) (r : Tree)
    → bq_insert n w ≡ some w'
    → Avl.insert (w'.tcb n).tid n w'.avl_root ≡ some r
    → register n w ≡ some (record w' { avl_root = r })
unfolding register
register-some n w w' r e f =
    ap (λ o. o >>= λ w. with_tree w (Avl.insert (w.tcb n).tid n w.avl_root)) e ∙ ap (with_tree w') f

module _ (n : ℕ) (t : Tcb) (w : World) (l : t.priority < buckets_count) where
  tree_at :
      (o : Option Tree)
      → Avl.Balance.Returns (Inserted t.tid n w.avl_root) o
      → (r : Tree) × Inserted t.tid n w.avl_root r × (o ≡ some r)
  tree_at none e = elim e [ ]
  tree_at (some r) e = (r, e, refl)

  -- The state after the insertion into the bucket queue.
  abbrev placed : World
  placed =
      let w1 = set_tcb n t w in
      let p = (w1.tcb n).priority in
      record (set_tcb n (record (w1.tcb n) { cur_priority = some p }) w1) {
        ready_queue = Ready.insert p n w.ready_queue;
      }

  bq_insert-placed : bq_insert n (set_tcb n t w) ≡ some placed
  unfolding bq_insert
  bq_insert-placed =
      let key = ((set_tcb n t w).tcb n).priority in
      let same : key ≡ t.priority = ground arith in
      rw (lt→ltb key buckets_count (subst (λ q. q < buckets_count) (sym same) l)) refl

  pub register-inserted :
      IsAvl w.avl_root
      → Sorted (entries w.avl_root)
      → (r : Tree) × Inserted t.tid n w.avl_root r
        × (register n (set_tcb n t w) ≡ some (inserted n t r w))
  register-inserted a o =
      let (r, i, e) = tree_at (Avl.insert t.tid n w.avl_root) (insert-put t.tid n w.avl_root a o) in
      let tid : (placed.tcb n).tid ≡ t.tid = ground arith in
      (
        r,
        i,
        register-some n (set_tcb n t w) placed r bq_insert-placed
            (ap (λ k. Avl.insert k n w.avl_root) tid ∙ e),
      )
