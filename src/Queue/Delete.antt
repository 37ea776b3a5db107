-- ===== src/Queue/Delete.antt =====
-- `pthipth_queue_delete` of src/pthipth_queue.c removes the node.
use pthipth.Prelude.{
  ℕ, ◌≡◌, refl, fun_ext, ◌≢◌, true, false, ◌||◌, Option, none, some, List, [], ◌∷◌, ◌++◌, arith,
  ◌==◌, if◌then◌else◌, has, erase, erase-Distinct, append-Distinct, ◌>>=◌, has-append, has-erase,
  Bool-cases, inl, inr,
}
use pthipth.Links.{Chain-erase, prev-next, next-prev, has-prev, has-next, update}
use pthipth.Queue.{Queue, delete, unlink, set_next2, set_prev2}
use pthipth.Queue.Add.{tail-has, tail-ne-zero}
use pthipth.Queue.Represents.{Represents, Returns, SameLinks, forward, backward}

-- The links that unlinking `n` leaves, seen with NULL at both ends.
record Unlinked (q : Queue) (n : ℕ) (q' : Queue) : Type 0 where
  next : (p : ℕ) → forward q' p ≡ update (forward q) (backward q n) (forward q n) p
  prev : (p : ℕ) → backward q' p ≡ update (backward q) (forward q n) (backward q n) p

-- What the links of a node in the queue, and of NULL, have to do with one another.
record Linked (q : Queue) (n : ℕ) : Type 0 where
  ne : n ≢ 0
  back : backward q (forward q n) ≡ n
  forth : forward q (backward q n) ≡ n
  first : backward q q.head ≡ 0
  last : forward q q.tail ≡ 0

unlink-Unlinked : (q : Queue) (n : ℕ) → Linked q n → Returns (Unlinked q n) (unlink q n)
unfolding unlink
unlink-Unlinked q n l = elim (Bool-cases (q.head == n)) [
  | inl h ↦ elim (Bool-cases (q.tail == n)) [
    | inl t ↦ rw (h, t) (record { next = λ p. ground arith; prev = λ p. ground arith })
    | inr t ↦
        let some_next : (q.next2 q.head == 0) ≡ false = ground arith in
        rw (h, t, some_next) (record { next = λ p. ground arith; prev = λ p. ground arith })
  ]
  | inr h ↦ elim (Bool-cases (q.tail == n)) [
    | inl t ↦
        let some_prev : (q.prev2 q.tail == 0) ≡ false = ground arith in
        rw (h, t, some_prev) (record { next = λ p. ground arith; prev = λ p. ground arith })
    | inr t ↦
        let some_prev : (q.prev2 n == 0) ≡ false = ground arith in
        let some_next : (q.next2 n == 0) ≡ false = ground arith in
        let kept : (if q.prev2 n == n then q.next2 n else q.next2 n) ≡ q.next2 n = ground arith in
        rw (h, t, some_prev, kept, some_next)
          (record { next = λ p. ground arith; prev = λ p. ground arith })
  ]
]

module _ (q : Queue) (n : ℕ) (xs : List ℕ) (r : Represents q xs) (k : has n xs ≡ true) where
  in-Linked : Linked q n
  in-Linked = record {
    ne = ground (arith, r.distinct.0);
    back = prev-next (forward q) (backward q) 0 xs 0 n r.chain (ground arith);
    forth =
        next-prev (forward q) (backward q) 0 xs 0 n r.chain
          (ground (arith, has-append n xs (0 ∷ [])));
    first = prev-next (forward q) (backward q) 0 xs 0 0 r.chain refl;
    last =
        next-prev (forward q) (backward q) 0 xs 0 0 r.chain
          (ground (arith, has-append 0 xs (0 ∷ [])));
  }

  prev-has : has (backward q n) (0 ∷ xs) ≡ true
  prev-has = has-prev (forward q) (backward q) 0 xs 0 n r.chain k

  next-has : has (forward q n) (xs ++ (0 ∷ [])) ≡ true
  next-has = has-next (forward q) (backward q) 0 xs 0 n r.chain k

-- The queue without `n`, whose own links are cleared.
abbrev cleared : Queue → ℕ → Queue
cleared q n = record q { next2 = update q.next2 n 0; prev2 = update q.prev2 n 0 }

abbrev pub Deleted : Queue → ℕ → List ℕ → Queue → Type 0
Deleted q n xs q' =
    Represents q' (erase n xs) × SameLinks q q' n xs × (q'.next2 n ≡ 0) × (q'.prev2 n ≡ 0)

module _ (q : Queue) (n : ℕ) (xs : List ℕ) (r : Represents q xs) (k : has n xs ≡ true) where
  cleared-Deleted : (q' : Queue) → n ≢ 0 → Unlinked q n q' → Deleted q n xs (cleared q' n)
  cleared-Deleted q' h u = (
    record {
      chain =
          Chain-erase (forward q) (backward q) (forward (cleared q' n)) (backward (cleared q' n)) n
            (λ p ne. ground (arith, u.next p)) (λ p ne. ground (arith, u.prev p)) 0 xs 0 r.chain k
            r.distinct r.distinct_end;
      distinct =
          ground
            (arith, has-erase 0 n xs r.distinct.1, erase-Distinct n xs r.distinct.1, r.distinct.0);
      distinct_end =
          append-Distinct 0 (erase n xs)
            (ground (arith, has-erase 0 n xs r.distinct.1, r.distinct.0))
            (erase-Distinct n xs r.distinct.1);
    },
    (λ p out. ground (
      arith,
      u.next p,
      u.prev p,
      prev-has q n xs r k,
      next-has q n xs r k,
      has-append p xs (0 ∷ []),
    )),
    ground arith,
    ground arith,
  )

  clear-Deleted :
      (m : Option Queue)
      → n ≢ 0
      → Returns (Unlinked q n) m
      → Returns (Deleted q n xs) (m >>= λ q'. set_prev2 n 0 q' >>= λ q''. set_next2 n 0 q'')
  unfolding set_prev2 set_next2
  clear-Deleted none h u = u
  clear-Deleted (some q') h u =
      let real : (n == 0) ≡ false = ground arith in rw real (cleared-Deleted q' h u)

-- Deleting a node that is in the queue takes it out, clears its links, and leaves the links of the
-- nodes outside the queue alone; no NULL is dereferenced.
pub delete-erase :
    (q : Queue) (n : ℕ) (xs : List ℕ)
    → Represents q xs
    → has n xs ≡ true
    → Returns (Deleted q n xs) (delete q n)
unfolding delete
delete-erase q n [] r k = cc
delete-erase q n (x ∷ xs) r k =
    let l = in-Linked q n (x ∷ xs) r k in
    let filled : (q.head == 0 || q.tail == 0) ≡ false =
      ground (arith, tail-ne-zero q x xs r, r.chain.0, r.distinct.0) in
    rw filled (clear-Deleted q n (x ∷ xs) r k (unlink q n) l.ne (unlink-Unlinked q n l))

update_self : (f : ℕ → ℕ) (n v : ℕ) → f n ≡ v → update f n v ≡ f
update_self f n v e = fun_ext λ p. ground arith

-- A node with cleared links that is in no queue may be deleted: nothing changes.
pub delete_absent :
    (q : Queue) (n : ℕ) (xs : List ℕ)
    → Represents q xs
    → n ≢ 0
    → has n xs ≡ false
    → q.next2 n ≡ 0
    → q.prev2 n ≡ 0
    → delete q n ≡ some q
unfolding delete
delete_absent q n [] r h k e f =
    let empty : (q.head == 0 || q.tail == 0) ≡ true = ground (arith, r.chain.0) in rw empty
delete_absent q n (x ∷ xs) r h k e f =
    let filled : (q.head == 0 || q.tail == 0) ≡ false =
      ground (arith, tail-ne-zero q x xs r, r.chain.0, r.distinct.0) in
    let not_head : (q.head == n) ≡ false = ground (arith, r.chain.0) in
    let not_tail : (q.tail == n) ≡ false = ground (arith, tail-has q x xs r) in
    let no_prev : (q.prev2 n == 0) ≡ true = ground arith in
    let no_next : (q.next2 n == 0) ≡ true = ground arith in
    let real : (n == 0) ≡ false = ground arith in
    rw (filled, not_head, not_tail, no_prev, no_next, real)
      (λ i.
        some
          (record q { next2 = update_self q.next2 n 0 e i; prev2 = update_self q.prev2 n 0 f i }))
