-- ===== src/Store/Queues.antt =====
-- The state queues of the pointers follow those of World.
use pthipth.Prelude.{
  ℕ, ◌≡◌, ◌≢◌, refl, true, false, Option, none, some, List, [], ◌∷◌, ◌++◌, ◌>>=◌, arith, has, erase,
}
use pthipth.World
use pthipth.World.{
  ThreadState, ready, running, blocked, sleeping, defunct, same_state, Tcb, World, set_state,
}
use pthipth.Queue
use pthipth.Queue.{Queue}
use pthipth.Queue.Represents as QueueView
use pthipth.Queue.Represents.{SameLinks}
use pthipth.Queue.Add.{add-append}
use pthipth.Queue.Delete.{Deleted, delete-erase}
use pthipth.Store
use pthipth.Store.{Store, Ends, queue_at, ends_of, with_blocked, with_sleeping}
use pthipth.Store.Shows.{Shows, Represents-frame}
use pthipth.Store.Buckets.{Follows}

-- No thread is in both lists.
abbrev pub Disjoint : List ℕ → List ℕ → Type 0
Disjoint xs ys = (m : ℕ) → has m ys ≡ true → has m xs ≡ false

-- No thread is in two of the state queues.
abbrev pub Apart : World → Type 0
Apart w =
    Disjoint w.blocked_state w.sleeping_state
    × Disjoint w.blocked_state w.defunct_state
    × Disjoint w.sleeping_state w.defunct_state

-- The thread is in no state queue.
abbrev pub Absent : ℕ → World → Type 0
Absent n w =
    (has n w.blocked_state ≡ false)
    × (has n w.sleeping_state ≡ false)
    × (has n w.defunct_state ≡ false)

module _ (n : ℕ) (s : Store) (w : World) (v : Shows s w) where
  -- Another list in the place of the blocked threads, or of the sleeping ones.
  blocked-Shows :
      (q : Queue) (xs : List ℕ)
      → QueueView.Represents q xs
      → SameLinks (queue_at s.blocked_state s) q n w.blocked_state
      → ((m : ℕ) → has m w.sleeping_state ≡ true → has m (n ∷ w.blocked_state) ≡ false)
      → ((m : ℕ) → has m w.defunct_state ≡ true → has m (n ∷ w.blocked_state) ≡ false)
      → Shows (with_blocked q s) (record w { blocked_state = xs })
  blocked-Shows q xs r l a b = record {
    bq_lem = v.bq_lem;
    keyed_lem = v.keyed_lem;
    priority_lem = v.priority_lem;
    cur_lem = v.cur_lem;
    state_lem = v.state_lem;
    blocked_lem = r;
    sleeping_lem =
        Represents-frame s.sleeping_state s q n w.blocked_state w.sleeping_state
          (queue_at s.blocked_state s) refl refl l a v.sleeping_lem;
    defunct_lem =
        Represents-frame s.defunct_state s q n w.blocked_state w.defunct_state
          (queue_at s.blocked_state s) refl refl l b v.defunct_lem;
  }

  sleeping-Shows :
      (q : Queue) (xs : List ℕ)
      → QueueView.Represents q xs
      → SameLinks (queue_at s.sleeping_state s) q n w.sleeping_state
      → ((m : ℕ) → has m w.blocked_state ≡ true → has m (n ∷ w.sleeping_state) ≡ false)
      → ((m : ℕ) → has m w.defunct_state ≡ true → has m (n ∷ w.sleeping_state) ≡ false)
      → Shows (with_sleeping q s) (record w { sleeping_state = xs })
  sleeping-Shows q xs r l a b = record {
    bq_lem = v.bq_lem;
    keyed_lem = v.keyed_lem;
    priority_lem = v.priority_lem;
    cur_lem = v.cur_lem;
    state_lem = v.state_lem;
    blocked_lem =
        Represents-frame s.blocked_state s q n w.sleeping_state w.blocked_state
          (queue_at s.sleeping_state s) refl refl l a v.blocked_lem;
    sleeping_lem = r;
    defunct_lem =
        Represents-frame s.defunct_state s q n w.sleeping_state w.defunct_state
          (queue_at s.sleeping_state s) refl refl l b v.defunct_lem;
  }

  with_queue :
      (f : Queue → Store) (w' : World) (P : Queue → Type 0)
      → ((q : Queue) → P q → Shows (f q) w')
      → (o : Option Queue) → QueueView.Returns P o
      → Follows Shows (o >>= λ q. some (f q)) (some w')
  with_queue f w' P k none r = elim r [ ]
  with_queue f w' P k (some q) r = k q r

  pub leave_blocked :
      Apart w
      → has n w.blocked_state ≡ true
      → Follows Shows (Store.leave n blocked s) (some (World.leave n blocked w))
  unfolding Store.leave World.leave
  leave_blocked a h =
      with_queue (λ q. with_blocked q s) (record w { blocked_state = erase n w.blocked_state })
        (Deleted (queue_at s.blocked_state s) n w.blocked_state)
        (λ q d.
          blocked-Shows q (erase n w.blocked_state) d.0 d.1
            (λ m i. ground (arith, a.0 m i, a.0 n, h)) (λ m i. ground (arith, a.1 m i, a.1 n, h)))
        _ (delete-erase (queue_at s.blocked_state s) n w.blocked_state v.blocked_lem h)

  pub leave_sleeping :
      Apart w
      → has n w.sleeping_state ≡ true
      → Follows Shows (Store.leave n sleeping s) (some (World.leave n sleeping w))
  unfolding Store.leave World.leave
  leave_sleeping a h =
      with_queue (λ q. with_sleeping q s) (record w { sleeping_state = erase n w.sleeping_state })
        (Deleted (queue_at s.sleeping_state s) n w.sleeping_state)
        (λ q d.
          sleeping-Shows q (erase n w.sleeping_state) d.0 d.1
            (λ m i. ground (arith, a.0 m, a.0 n h, i)) (λ m i. ground (arith, a.2 m i, a.2 n, h)))
        _ (delete-erase (queue_at s.sleeping_state s) n w.sleeping_state v.sleeping_lem h)

  pub add_blocked :
      n ≢ 0
      → Apart w
      → Absent n w
      → Follows Shows
          (Queue.add (queue_at s.blocked_state s) n >>= λ q. some (with_blocked q s))
          (some (record w { blocked_state = w.blocked_state ++ (n ∷ []) }))
  add_blocked h a o =
      with_queue (λ q. with_blocked q s) (record w { blocked_state = w.blocked_state ++ (n ∷ []) })
        (λ q.
          QueueView.Represents q (w.blocked_state ++ (n ∷ []))
          × SameLinks (queue_at s.blocked_state s) q n w.blocked_state)
        (λ q d.
          blocked-Shows q (w.blocked_state ++ (n ∷ [])) d.0 d.1 (λ m i. ground (arith, a.0 m i, o))
            (λ m i. ground (arith, a.1 m i, o)))
        _ (add-append (queue_at s.blocked_state s) n w.blocked_state v.blocked_lem h o.0)

  pub add_sleeping :
      n ≢ 0
      → Apart w
      → Absent n w
      → Follows Shows
          (Queue.add (queue_at s.sleeping_state s) n >>= λ q. some (with_sleeping q s))
          (some (record w { sleeping_state = w.sleeping_state ++ (n ∷ []) }))
  add_sleeping h a o =
      with_queue (λ q. with_sleeping q s)
        (record w { sleeping_state = w.sleeping_state ++ (n ∷ []) })
        (λ q.
          QueueView.Represents q (w.sleeping_state ++ (n ∷ []))
          × SameLinks (queue_at s.sleeping_state s) q n w.sleeping_state)
        (λ q d.
          sleeping-Shows q (w.sleeping_state ++ (n ∷ [])) d.0 d.1
            (λ m i. ground (arith, a.0 m, i, o)) (λ m i. ground (arith, a.2 m i, o)))
        _ (add-append (queue_at s.sleeping_state s) n w.sleeping_state v.sleeping_lem h o.1)
