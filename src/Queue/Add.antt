-- ===== src/Queue/Add.antt =====
-- `pthipth_queue_add` of src/pthipth_queue.c appends the node.
use pthipth.Prelude.{
  ℕ, ◌≡◌, ◌≢◌, true, false, ◌||◌, some, List, [], ◌∷◌, ◌++◌, arith, ◌==◌, has, append-Distinct,
  has-append,
}
use pthipth.Links.{Chain-insert, has-last, update}
use pthipth.Queue.{Queue, add, append, init}
use pthipth.Queue.Represents.{Represents, Returns, SameLinks, forward, backward}

init-Represents :
    (q : Queue) (n : ℕ)
    → Represents q []
    → n ≢ 0
    → Returns (λ q'. Represents q' (n ∷ []) × SameLinks q q' n []) (init q n)
unfolding init
init-Represents q n r h = ground arith

-- The queue that `append` leaves.
abbrev appended : Queue → ℕ → Queue
appended q n = record {
  head = q.head;
  tail = n;
  prev2 = update q.prev2 n q.tail;
  next2 = update (update q.next2 n 0) q.tail n;
}

append-appended : (q : Queue) (n : ℕ) → n ≢ 0 → q.tail ≢ 0 → append q n ≡ some (appended q n)
unfolding append
append-appended q n h k = ground arith

pub tail-has :
    (q : Queue) (x : ℕ) (xs : List ℕ) → Represents q (x ∷ xs) → has q.tail (x ∷ xs) ≡ true
tail-has q x xs r = has-last (forward q) (backward q) x xs 0 r.chain.2

pub tail-ne-zero : (q : Queue) (x : ℕ) (xs : List ℕ) → Represents q (x ∷ xs) → q.tail ≢ 0
tail-ne-zero q x xs r = ground (arith, tail-has q x xs r, r.distinct.0)

module _ (q : Queue) (n x : ℕ) (xs : List ℕ) (r : Represents q (x ∷ xs)) (h : n ≢ 0)
    (k : has n (x ∷ xs) ≡ false) where
  appended-Represents : Represents (appended q n) (x ∷ (xs ++ (n ∷ [])))
  appended-Represents = record {
    chain =
        Chain-insert (forward q) (backward q) (forward (appended q n)) (backward (appended q n)) n 0
          (x ∷ xs) 0 r.chain (ground arith) (ground (arith, has-append n xs (0 ∷ []))) r.distinct
          r.distinct_end (λ p. ground (arith, tail-has q x xs r, r.distinct.0)) (λ p. ground arith);
    distinct = append-Distinct n (0 ∷ x ∷ xs) (ground arith) r.distinct;
    distinct_end =
        append-Distinct 0 (x ∷ (xs ++ (n ∷ [])))
          (ground (arith, has-append 0 xs (n ∷ []), r.distinct.0))
          (append-Distinct n (x ∷ xs) k r.distinct.1);
  }

  appended-SameLinks : SameLinks q (appended q n) n (x ∷ xs)
  appended-SameLinks p out = ground (arith, tail-has q x xs r)

-- Adding a node that is not in the queue puts it at the end, and leaves the links of all nodes
-- alone but those of the node and of the queue.
pub add-append :
    (q : Queue) (n : ℕ) (xs : List ℕ)
    → Represents q xs
    → n ≢ 0
    → has n xs ≡ false
    → Returns (λ q'. Represents q' (xs ++ (n ∷ [])) × SameLinks q q' n xs) (add q n)
unfolding add
add-append q n [] r h k =
    let empty : (q.head == 0 || q.tail == 0) ≡ true = ground (arith, r.chain.0) in
    rw empty (init-Represents q n r h)
add-append q n (x ∷ xs) r h k =
    let filled : (q.head == 0 || q.tail == 0) ≡ false =
      ground (arith, tail-ne-zero q x xs r, r.chain.0, r.distinct.0) in
    rw (filled, append-appended q n h (tail-ne-zero q x xs r))
      (appended-Represents q n x xs r h k, appended-SameLinks q n x xs r h k)
