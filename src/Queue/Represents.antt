-- ===== src/Queue/Represents.antt =====
-- When a linked queue of src/pthipth_queue.c holds a list of nodes: with NULL as the node before the
-- first and behind the last, `head` and `tail` are its links, and the whole is one chain.
use pthipth.Prelude.{
  ℕ, ◌≡◌, false, Option, none, some, List, [], ◌∷◌, ◌++◌, ◌==◌, if◌then◌else◌, has, Distinct,
}
use pthipth.Links.{Chain}
use pthipth.Queue.{Queue}

abbrev pub forward : Queue → ℕ → ℕ
forward q p = if p == 0 then q.head else q.next2 p

abbrev pub backward : Queue → ℕ → ℕ
backward q p = if p == 0 then q.tail else q.prev2 p

pub record Represents (q : Queue) (xs : List ℕ) : Type 0 where
  pub chain : Chain (forward q) (backward q) 0 xs 0
  pub distinct : Distinct (0 ∷ xs)
  pub distinct_end : Distinct (xs ++ (0 ∷ []))

-- The links of nodes outside the list and the node stay.
abbrev pub SameLinks : Queue → Queue → ℕ → List ℕ → Type 0
SameLinks q q' n xs =
    (p : ℕ) → has p (0 ∷ n ∷ xs) ≡ false → (q'.next2 p ≡ q.next2 p) × (q'.prev2 p ≡ q.prev2 p)

abbrev pub Returns : (Queue → Type 0) → Option Queue → Type 0
Returns P none = ⊥
Returns P (some q) = P q
