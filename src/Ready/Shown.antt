-- ===== src/Ready/Shown.antt =====
-- The bits of the abstract bucket queue: a bucket is shown only if it holds a node.
use pthipth.Prelude.{
  ℕ, ◌≡◌, ◌≢◌, ◌<◌, refl, Bool, true, false, Option, none, some, List, [], ◌∷◌, ◌++◌, arith, has,
}
use pthipth.Ready.{Ready, buckets_count, first, lowest, peek, insert, delete}
use pthipth.Ready.Lowest.{Lowest, lowest-Lowest}

abbrev pub Shown : Ready → Type 0
Shown r = (p : ℕ) → r.bits p ≡ true → r.bucket p ≢ []

append-ne-nil : (xs : List ℕ) (n : ℕ) → xs ++ (n ∷ []) ≢ []
append-ne-nil [] n e = cc
append-ne-nil (x ∷ xs) n e = cc

insert-Shown_of :
    (p n : ℕ) (r : Ready) (xs : List ℕ) → r.bucket p ≡ xs → Shown r → Shown (insert p n r)
unfolding insert
insert-Shown_of p n r [] e s = λ q h k. ground (arith, s q, append-ne-nil (r.bucket p) n)
insert-Shown_of p n r (x ∷ xs) e s = λ q h k. ground (arith, s q, append-ne-nil (r.bucket p) n)

pub insert-Shown : (p n : ℕ) (r : Ready) → Shown r → Shown (insert p n r)
insert-Shown p n r s = insert-Shown_of p n r (r.bucket p) refl s

delete-Shown_of :
    (p n : ℕ) (r : Ready) (xs : List ℕ) → r.bucket p ≡ xs → Shown r → Shown (delete p n r)
unfolding delete
delete-Shown_of p n r [] e s = λ q h k. ground (arith, s q)
delete-Shown_of p n r (x ∷ xs) e s = λ q h k. ground (arith, s q)

pub delete-Shown : (p n : ℕ) (r : Ready) → Shown r → Shown (delete p n r)
delete-Shown p n r s = delete-Shown_of p n r (r.bucket p) refl s

-- A bit that is set stays set in an insertion, and in a deletion from another bucket.
insert-bits_of :
    (p n q : ℕ) (r : Ready) (xs : List ℕ)
    → r.bucket p ≡ xs
    → r.bits q ≡ true
    → (insert p n r).bits q ≡ true
unfolding insert
insert-bits_of p n q r [] e h = rw e (ground arith)
insert-bits_of p n q r (x ∷ xs) e h = rw e h

pub insert-bits : (p n q : ℕ) (r : Ready) → r.bits q ≡ true → (insert p n r).bits q ≡ true
insert-bits p n q r h = insert-bits_of p n q r (r.bucket p) refl h

pub delete-bits : (p n q : ℕ) (r : Ready) → p ≢ q → r.bits q ≡ true → (delete p n r).bits q ≡ true
unfolding delete
delete-bits p n q r ne h = ground arith

-- With a bit set there is a lowest one, and the head is a node.
pub lowest-some :
    (bits : ℕ → Bool) (q : ℕ)
    → q < buckets_count
    → bits q ≡ true
    → (a : ℕ) × (lowest bits ≡ some a) × (bits a ≡ true)
lowest-some bits q lt h = by_cases (lowest bits) refl (lowest-Lowest bits)
  where
    by_cases :
        (o : Option ℕ)
        → lowest bits ≡ o
        → Lowest bits 0 buckets_count o
        → (a : ℕ) × (lowest bits ≡ some a) × (bits a ≡ true)
    by_cases none e l = absurd (ground (arith, l q))
    by_cases (some a) e l = (a, e, l.2)

first-ne-zero : (xs : List ℕ) → xs ≢ [] → has 0 xs ≡ false → first xs ≢ 0
first-ne-zero [] h k e = h refl
first-ne-zero (x ∷ xs) h k e = ground arith

pub peek-ne-zero :
    (r : Ready) (q : ℕ)
    → Shown r
    → ((p : ℕ) → has 0 (r.bucket p) ≡ false)
    → q < buckets_count
    → r.bits q ≡ true
    → peek r ≢ 0
unfolding peek
peek-ne-zero r q s real lt h =
    let (a, e, on) = lowest-some r.bits q lt h in
    rw e (first-ne-zero (r.bucket a) (s a on) (real a))
