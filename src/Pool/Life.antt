-- ===== src/Pool/Life.antt =====
-- The loops of `pthipth_pool_create` and `pthipth_pool_destroy` of src/pthipth_pool.c over the workers, and how
-- the workers end.
use pthipth.Prelude.{
  ℕ, zero, suc, ◌+◌, ◌-◌, ◌<◌, negsuc, ◌≡◌, ◌≢◌, refl, sym, subst, Bool, true, false, Option, none,
  some, List, [], ◌∷◌, length, ltb, if◌then◌else◌, if_true, ◌>>=◌, arith, ℤ, pos, is_zero,
  minus_one,
}
use pthipth.World.{World}
use pthipth.Pool.{Pool, free, started_one, begin_task, create_start, shut, destroy_step}

-- The loop of `pthipth_pool_create` from `i` on, with `left` turns to go up to `thread_count`; `answer i` is
-- the result of the `pthipth_create` of that turn. `false` is that one of them is not 0, and
-- `pthipth_pool_destroy` follows.
unfoldable pub create_loop : (left i : ℕ) (answer : ℕ → ℤ) → Pool → Pool × Bool
create_loop zero i answer p = (p, true)
create_loop (suc k) i answer p =
    let rest = create_loop k (suc i) answer (started_one p) in
    if is_zero (answer i) then rest else (p, false)

-- The turns of `for (int i = 0; i < count; i++)`
abbrev pub turns : ℤ → ℕ
turns (pos n) = n
turns (negsuc n) = 0

-- `pthipth_pool_create`, up to the destruction of a pool that has failed.
unfoldable pub create :
    (exists threads queue : Bool) (thread_count queue_size : ℤ) (answer : ℕ → ℤ)
    → Pool
    → Pool × Bool
unfolding create_start create_loop
create exists threads queue thread_count queue_size answer p =
    let start = create_start exists threads queue thread_count queue_size p in
    if start.1 then create_loop (turns thread_count) 0 answer start.0 else (start.0, false)

-- Workers that find the pool shut down, one after another: each ends instead of taking a task.
unfoldable pub leave_all : (threads : List ℕ) → Pool → World → Option (Pool × World)
unfolding begin_task
leave_all [] p w = some (p, w)
leave_all (n ∷ ns) p w = begin_task n p w >>= λ r. leave_all ns r.0 r.1

-- The end of `pthipth_pool_destroy`, after its joins, whose results it does not read.
unfoldable pub destroy_end : Pool → Pool × ℤ
unfolding free
destroy_end p = ((free true p).0, pos 0)

-- The result, and how many workers the pool counts.
abbrev pub Counts : ℕ → Pool → Bool → Pool × Bool → Type 0
Counts n p result r =
    (r.1 ≡ result)
    × (r.0.thread_count ≡ n + p.thread_count)
    × (r.0.started ≡ n + p.started)
    × (r.0.has_threads ≡ p.has_threads)
    × (r.0.has_queue ≡ p.has_queue)
    × (r.0.count ≡ p.count)
    × (r.0.shutdown ≡ p.shutdown)

-- What `pthipth_pool_free` does to a pool: it refuses while a worker is left, and drops the arrays then.
abbrev pub Frees : (left : ℕ) → Pool → Type 0
Frees left p =
    (left ≡ 0 → ((free true p).1 ≡ pos 0) × ((free true p).0.has_threads ≡ false))
    × (left ≢ 0 → ((free true p).1 ≡ minus_one) × ((free true p).0 ≡ p))

abbrev pub Left : (left : ℕ) → World → Option (Pool × World) → Type 0
Left left w none = ⊥
Left left w (some (p, w')) = (p.started ≡ left) × (w' ≡ w) × Frees left p

free-Frees : (p : Pool) → Frees p.started p
unfolding free
free-Frees p = (
  (λ e. let no_more : ltb 0 p.started ≡ false = ground arith in rw no_more (refl, refl)),
  λ e. let more : ltb 0 p.started ≡ true = ground arith in rw more (refl, refl),
)

begin_task-ends :
    (n : ℕ) (p : Pool) (w : World)
    → p.shutdown ≡ true
    → begin_task n p w ≡ some (record p { started = p.started - 1 }, w, none)
unfolding begin_task
begin_task-ends n p w s = if_true p.shutdown _ _ s

-- Workers that find the pool shut down end one after another, without a task and without a change to the
-- threads; then `pthipth_pool_free` refuses if there is one left, and drops the arrays if there is none.
pub leave_all-Left :
    (threads : List ℕ) (p : Pool) (w : World)
    → p.shutdown ≡ true
    → Left (p.started - length threads) w (leave_all threads p w)
unfolding leave_all
leave_all-Left [] p w s =
    let same : p.started - 0 ≡ p.started = omega arith in
    (sym same, refl, subst (λ k. Frees k p) (sym same) (free-Frees p))
leave_all-Left (n ∷ ns) p w s =
    let same : p.started - 1 - length ns ≡ p.started - suc (length ns) = omega arith in
    subst (λ o. Left (p.started - suc (length ns)) w (o >>= λ r. leave_all ns r.0 r.1))
      (sym (begin_task-ends n p w s))
      (subst (λ k. Left k w (leave_all ns (record p { started = p.started - 1 }) w)) same
        (leave_all-Left ns (record p { started = p.started - 1 }) w s))

-- The pool that `pthipth_pool_create` has made, with that result, and what becomes of it where it is
-- destroyed.
abbrev pub Lives : (result : Bool) (workers : ℕ) (threads : List ℕ) → World → Pool × Bool → Type 0
Lives result k threads w made =
    (made.1 ≡ result)
    × (made.0.thread_count ≡ k)
    × (made.0.started ≡ k)
    × ((destroy_step true made.0).1 ≡ shut)
    × (length threads ≡ k → Left 0 w (leave_all threads (destroy_step true made.0).0 w))

abbrev fresh : (queue_size : ℕ) → Pool → Pool
fresh m p = record p {
  thread_count = 0;
  queue_size = m;
  head = 0;
  tail = 0;
  count = 0;
  task_in_progess = 0;
  shutdown = false;
  started = 0;
  has_threads = true;
  has_queue = true;
}

-- How the loop of `n` turns ends after `k` calls that gave 0: with none left, or at one that gave another
-- number.
abbrev pub Stops : (n : ℕ) (answer : ℕ → ℤ) (result : Bool) (k : ℕ) → Type 0
Stops n answer true k = k ≡ n
Stops n answer false k = (k < n) × (is_zero (answer k) ≡ false)
