-- ===== src/Pool/Ring.antt =====
-- The ring of tasks of src/pthipth_pool.c is a queue: first in, first out.
use pthipth.Prelude.{
  ℕ, zero, suc, ◌+◌, ◌-◌, ◌%◌, ◌≤◌, ◌<◌, ◌≡◌, ◌≢◌, refl, ap, sym, ◌∙◌, inl, inr, true, false, not,
  List, [], ◌∷◌, ◌++◌, arith, Bool-cases, ◌==◌, ◌||◌, ltb, ltb→lt, ltb→ge, if◌then◌else◌,
}
use native.Mathlib.Nat.{mod-lt, mod-eq_of_lt, mod-eq-sub-mod, mod-add-mod}
use pthipth.Ready.{put}
use pthipth.Threads.{Task}
use pthipth.Pool.{Pool, store, take, add}

-- The tasks from the `k`-th on, `n` of them, of a ring of `size` places that starts at `head`.
abbrev tasks : (ℕ → Task) → (size head k n : ℕ) → List Task
tasks queue size head k zero = []
tasks queue size head k (suc n) = queue ((head + k) % size) ∷ tasks queue size head (suc k) n

-- What the pool holds, in the order in which it is taken.
abbrev pub contents : Pool → List Task
contents p = tasks p.queue p.queue_size p.head 0 p.count

pub record IsRing (p : Pool) : Type 0 where
  pub head_lem : p.head < p.queue_size
  pub count_lem : p.count ≤ p.queue_size
  pub tail_lem : p.tail ≡ (p.head + p.count) % p.queue_size

-- The remainder of a sum of two numbers that are below the size, or one of them equal to it.
wrapped :
    (size h k : ℕ)
    → h < size
    → k ≤ size
    → (h + k) % size ≡ (if ltb (h + k) size then h + k else h + k - size)
wrapped size h k lt le = elim (Bool-cases (ltb (h + k) size)) [
  | inl e ↦ rw e (mod-eq_of_lt (ltb→lt (h + k) size e))
  | inr e ↦ rw e (mod-eq-sub-mod (ltb→ge (h + k) size e) ∙ mod-eq_of_lt (ground arith))
]

-- Two places of the ring are the same only if they are a whole round apart.
apart : (size h j k : ℕ) → h < size → j < k → k < size → (h + j) % size ≢ (h + k) % size
apart size h j k lt a b e =
    ground (arith, wrapped size h j lt (omega arith), wrapped size h k lt (omega arith))

tasks-put :
    (queue : ℕ → Task) (size head k n m : ℕ) (t : Task)
    → head < size
    → k + n ≤ m
    → m < size
    → tasks (put queue ((head + m) % size) t) size head k n ≡ tasks queue size head k n
tasks-put queue size head k zero m t h l s = refl
tasks-put queue size head k (suc n) m t h l s =
    let other : ((head + m) % size == (head + k) % size) ≡ false =
      ground (arith, apart size head k m h) in
    rw other (
      ap (λ ts. queue ((head + k) % size) ∷ ts)
        (tasks-put queue size head (suc k) n m t h (omega arith) s))

tasks-snoc :
    (queue : ℕ → Task) (size head k n : ℕ)
    → tasks queue size head k (suc n)
      ≡ tasks queue size head k n ++ (queue ((head + (k + n)) % size) ∷ [])
tasks-snoc queue size head k zero = ap (λ j. queue ((head + j) % size) ∷ []) (omega arith)
tasks-snoc queue size head k (suc n) =
    ap (λ ts. queue ((head + k) % size) ∷ ts)
      (tasks-snoc queue size head (suc k) n
        ∙ ap (λ j. tasks queue size head (suc k) n ++ (queue ((head + j) % size) ∷ []))
            (omega arith))

tasks-shift :
    (queue : ℕ → Task) (size head k n : ℕ)
    → tasks queue size ((head + 1) % size) k n ≡ tasks queue size head (suc k) n
tasks-shift queue size head k zero = refl
tasks-shift queue size head k (suc n) =
    ap (λ i. queue i ∷ tasks queue size ((head + 1) % size) (suc k) n)
      (mod-add-mod (head + 1) size k ∙ ap (λ j. j % size) (omega arith))
    ∙ ap (λ ts. queue ((head + suc k) % size) ∷ ts) (tasks-shift queue size head (suc k) n)

module _ (p : Pool) (r : IsRing p) where
  -- The place behind the last task gets the new one, and no other place changes.
  stored :
      (t : Task)
      → p.count < p.queue_size
      → tasks (put p.queue p.tail t) p.queue_size p.head 0 (p.count + 1) ≡ contents p ++ (t ∷ [])
  stored t l =
      let q = put p.queue p.tail t in
      let behind : q ((p.head + p.count) % p.queue_size) ≡ t = ground (arith, r.tail_lem) in
      let before : tasks q p.queue_size p.head 0 p.count ≡ contents p =
        ap (λ i. tasks (put p.queue i t) p.queue_size p.head 0 p.count) r.tail_lem
        ∙ tasks-put p.queue p.queue_size p.head 0 p.count p.count t r.head_lem (omega arith) l in
      let more : p.count + 1 ≡ suc p.count = omega arith in
      ap (tasks q p.queue_size p.head 0) more
      ∙ tasks-snoc q p.queue_size p.head 0 p.count
      ∙ ap (λ j. tasks q p.queue_size p.head 0 p.count ++ (q ((p.head + j) % p.queue_size) ∷ []))
          (omega arith)
      ∙ ap (λ ts. ts ++ (q ((p.head + p.count) % p.queue_size) ∷ [])) before
      ∙ ap (λ x. contents p ++ (x ∷ [])) behind

  -- A task that is stored in a ring with room goes behind all others, and the ring is well formed.
  store-contents :
      (t : Task)
      → p.count < p.queue_size
      → IsRing (store t p) × (contents (store t p) ≡ contents p ++ (t ∷ []))
  unfolding store
  store-contents t l = (
    record {
      head_lem = r.head_lem;
      count_lem = omega arith;
      tail_lem =
          ap (λ i. (i + 1) % p.queue_size) r.tail_lem
          ∙ mod-add-mod (p.head + p.count) p.queue_size 1
          ∙ ap (λ j. j % p.queue_size) (omega arith);
    },
    stored t l,
  )

  taken :
      (n : ℕ)
      → p.count ≡ suc n
      → contents p
        ≡ p.queue p.head ∷ tasks p.queue p.queue_size ((p.head + 1) % p.queue_size) 0 (p.count - 1)
  taken n e =
      let first : (p.head + 0) % p.queue_size ≡ p.head =
        ap (λ j. j % p.queue_size) (omega arith) ∙ mod-eq_of_lt r.head_lem in
      let rest : tasks p.queue p.queue_size p.head 1 n
          ≡ tasks p.queue p.queue_size ((p.head + 1) % p.queue_size) 0 (p.count - 1) =
        sym (tasks-shift p.queue p.queue_size p.head 0 n)
        ∙ ap (tasks p.queue p.queue_size ((p.head + 1) % p.queue_size) 0) (omega arith) in
      ap (tasks p.queue p.queue_size p.head 0) e
      ∙ ap (λ i. p.queue i ∷ tasks p.queue p.queue_size p.head 1 n) first
      ∙ ap (λ ts. p.queue p.head ∷ ts) rest

  -- On a pool with its arrays, `add` of a task with a function goes on to signal, with the task behind all
  -- others, if the ring has room; the ring stays well formed.
  pub add-contents :
      (t : Task)
      → p.has_threads ≡ true
      → p.has_queue ≡ true
      → t.function ≢ 0
      → p.count < p.queue_size
      → IsRing (add true true t p).0
        × (contents (add true true t p).0 ≡ contents p ++ (t ∷ []))
        × ((add true true t p).1 ≡ true)
  unfolding add
  add-contents t a b f l =
      let given : ((t.function == 0) || not p.has_threads || not p.has_queue) ≡ false =
        ground arith in
      let room : (p.count == p.queue_size) ≡ false = ground arith in
      let s = store-contents t l in rw (given, room) (s.0, s.1, refl)

  -- The first task is taken from the ring, which stays well formed and holds the others.
  pub take-contents :
      (n : ℕ)
      → p.count ≡ suc n
      → IsRing (take p) × (contents p ≡ p.queue p.head ∷ contents (take p))
  unfolding take
  take-contents n e = (
    record {
      head_lem = mod-lt (p.head + 1) (omega (arith, r.head_lem));
      count_lem = omega (arith, r.count_lem);
      tail_lem =
          r.tail_lem
          ∙ ap (λ j. j % p.queue_size) (omega arith)
          ∙ sym (mod-add-mod (p.head + 1) p.queue_size (p.count - 1));
    },
    taken n e,
  )
