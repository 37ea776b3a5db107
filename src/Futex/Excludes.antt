-- ===== src/Futex/Excludes.antt =====
-- Of the threads that use a semaphore of count 1, at most one is between its `futex_down` and `futex_up`.
use pthipth.Prelude.{
  ℕ, zero, suc, ◌≡◌, ◌≢◌, refl, ap, Bool, true, false, arith, ltb, if◌then◌else◌, ℤ, pos, negsuc,
}
use pthipth.Futex.{
  Place, outside, trying, to_sleep, asleep, to_mark, inside, Sem, Step, enters, tries, sleeps,
  retries, refused, interrupted, Waits, AllWait, marks, leaves, posts, to_wake, wakes, wakes_none,
  Reach, here, step, start, at, after_down, atomic_down, up,
}

-- The thread has the semaphore.
abbrev holds : Place → Bool
holds inside = true
holds to_mark = true
holds _ = false

abbrev is_free : ℤ → Bool
is_free (pos n) = ltb 0 n
is_free (negsuc n) = false

record Excludes (s : Sem) : Type 0 where
  one : (t u : ℕ) → holds (s.place t) ≡ true → holds (s.place u) ≡ true → t ≡ u
  taken : (t : ℕ) → holds (s.place t) ≡ true → is_free s.count ≡ false

-- A thread moves and does not have the semaphore after it, nor does the count tell of another one.
moves-Excludes :
    (s : Sem) (t : ℕ) (p : Place) (count : ℤ)
    → Excludes s
    → holds p ≡ false
    → (is_free s.count ≡ false → is_free count ≡ false)
    → Excludes (record { count = count; place = at t p s.place })
moves-Excludes s t p count e h k = record {
  one = λ u v a b. ground (arith, e.one u v);
  taken = λ u a. ground (arith, e.taken u, k);
}

-- A thread takes the semaphore, which no thread has.
takes-Excludes :
    (s : Sem) (t : ℕ) (p : Place) (count : ℤ)
    → ((u : ℕ) → u ≢ t → holds (s.place u) ≡ false)
    → is_free count ≡ false
    → Excludes (record { count = count; place = at t p s.place })
takes-Excludes s t p count e k = record {
  one = λ u v a b. ground (arith, e u, e v);
  taken = λ u a. k;
}

-- A thread that has the semaphore lets it go.
leaves-Excludes :
    (s : Sem) (t : ℕ) (p : Place) (count : ℤ)
    → Excludes s
    → holds (s.place t) ≡ true
    → holds p ≡ false
    → Excludes (record { count = count; place = at t p s.place })
leaves-Excludes s t p count e o h = record {
  one = λ u v a b. ground (arith, e.one u v);
  taken = λ u a. ground (arith, e.one u t);
}

down-Excludes :
    (s : Sem) (t : ℕ) (woken : Bool) (z : ℤ)
    → s.count ≡ z
    → Excludes s
    → Excludes (record {
      count = (atomic_down z).0;
      place = at t (after_down woken (atomic_down z).1) s.place;
    })
unfolding atomic_down
down-Excludes s t woken (pos zero) q e =
    moves-Excludes s t (to_sleep (negsuc 0) woken) (negsuc 0) e refl (λ i. refl)
down-Excludes s t woken (pos (suc zero)) q e =
    takes-Excludes s t (if woken then to_mark else inside) (pos 0)
      (λ u h. ground (arith, e.taken u, ap is_free q)) refl
down-Excludes s t woken (pos (suc (suc n))) q e =
    moves-Excludes s t (after_down woken (pos (suc n))) (pos (suc n)) e (ground arith)
      (λ i. ground (arith, ap is_free q))
down-Excludes s t woken (negsuc n) q e =
    moves-Excludes s t (to_sleep (negsuc n) woken) (negsuc n) e refl (λ i. refl)

Step-Excludes : (s s' : Sem) (t : Step s s') → Waits s s' t → Excludes s → Excludes s'
Step-Excludes _ _ (enters s t p) h e = moves-Excludes s t (trying false) s.count e refl (λ i. i)
Step-Excludes _ _ (tries s t woken p) h e = down-Excludes s t woken s.count refl e
Step-Excludes _ _ (sleeps s t woken p) h e = moves-Excludes s t asleep s.count e refl (λ i. i)
Step-Excludes _ _ (retries s t value woken p q) h e =
    moves-Excludes s t (trying woken) s.count e refl (λ i. i)
Step-Excludes _ _ (refused s t value woken p) h e = absurd h
Step-Excludes _ _ (interrupted s t p) h e = absurd h
Step-Excludes _ _ (marks s t p) h e =
    takes-Excludes s t inside (negsuc 0) (λ u h. ground (arith, ap holds p, e.one u t)) refl
Step-Excludes _ _ (leaves s t p q) h e =
    leaves-Excludes s t outside (up s.count).0 e (ap holds p) refl
Step-Excludes _ _ (posts s t p q) h e =
    leaves-Excludes s t to_wake (up s.count).0 e (ap holds p) refl
Step-Excludes _ _ (wakes s t u p q) h e =
    moves-Excludes (record s { place = at t outside s.place }) u (trying true) s.count
      (moves-Excludes s t outside s.count e refl (λ i. i)) refl (λ i. i)
Step-Excludes _ _ (wakes_none s t p q) h e = moves-Excludes s t outside s.count e refl (λ i. i)

start-Excludes : Excludes start
unfolding start
start-Excludes = record { one = λ t u a b. ground arith; taken = λ t a. ground arith }

Reach-Excludes : (s : Sem) (r : Reach start s) → AllWait start s r → Excludes s
Reach-Excludes _ here a = start-Excludes
Reach-Excludes _ (step s' s'' r t) (a, h) = Step-Excludes s' s'' t h (Reach-Excludes s' r a)

-- From a semaphore of count 1 that no thread uses, whatever the order of the steps of however many
-- threads, as long as no system call of a thread that waits has answered with an error: two threads that are
-- between their `futex_down` and their `futex_up` are one thread.
pub Reach-one :
    (s : Sem) (t u : ℕ) (r : Reach start s)
    → AllWait start s r
    → holds (s.place t) ≡ true
    → holds (s.place u) ≡ true
    → t ≡ u
Reach-one s t u r w a b = (Reach-Excludes s r w).one t u a b
