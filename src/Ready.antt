-- ===== src/Ready.antt =====
-- The abstract bucket queue: for each priority the nodes of its bucket, first to last, and the bit
-- that says whether the scheduler looks at the bucket. The head is the first node of the lowest
-- bucket whose bit is set. src/pthipth_bq.c keeps it by pointers (module Bq).
pub mod Lowest
pub mod Shown
use pthipth.Prelude.{
  ℕ, zero, suc, ◌+◌, ◌<◌, ◌≡◌, refl, ◌⊎◌, inl, inr, Bool, true, false, Option, none, some, List, [],
  ◌∷◌, ◌++◌, arith, ◌==◌, if◌then◌else◌, has, erase, Bool-cases,
}

abbrev pub idle_priority : ℕ
idle_priority = 31

-- The table of the code has `IDLE_PRIORITY + 1` entries.
abbrev pub buckets_count : ℕ
buckets_count = 32

pub record Ready : Type 0 where
  pub bucket : ℕ → List ℕ
  pub bits : ℕ → Bool

abbrev pub put {ℓ} : {A : Type ℓ} → (ℕ → A) → ℕ → A → ℕ → A
put f p v q = if p == q then v else f q

-- The index of the lowest bit that is set, from `i` on, among `n` bits.
unfoldable pub lowest_from : (ℕ → Bool) → ℕ → ℕ → Option ℕ
lowest_from bits i zero = none
lowest_from bits i (suc n) = if bits i then some i else lowest_from bits (i + 1) n

-- `__builtin_ctz` of the 32-bit map; `none` where no bit is set, for which it is undefined.
unfoldable pub lowest : (ℕ → Bool) → Option ℕ
unfolding lowest_from
lowest bits = lowest_from bits 0 buckets_count

abbrev pub first : List ℕ → ℕ
first [] = 0
first (x ∷ xs) = x

abbrev pub first_of : (ℕ → List ℕ) → Option ℕ → ℕ
first_of bucket none = 0
first_of bucket (some a) = first (bucket a)

unfoldable pub peek : Ready → ℕ
peek r = first_of r.bucket (lowest r.bits)

-- A new bucket sets its bit.
unfoldable pub insert : ℕ → ℕ → Ready → Ready
insert p n r = record {
  bucket = put r.bucket p (r.bucket p ++ (n ∷ []));
  bits = elim (r.bucket p) [ [] ↦ put r.bits p true | _ ∷ _ ↦ r.bits ];
}

-- The bit goes with the first node of a bucket, also where other nodes stay in it.
unfoldable pub delete : ℕ → ℕ → Ready → Ready
delete p n r = record {
  bucket = put r.bucket p (erase n (r.bucket p));
  bits = if first (r.bucket p) == n then put r.bits p false else r.bits;
}

abbrev pub rotate_list : List ℕ → List ℕ
rotate_list [] = []
rotate_list (x ∷ xs) = xs ++ (x ∷ [])

abbrev pub rotate_at : Ready → Option ℕ → Ready
rotate_at r none = r
rotate_at r (some a) = record r { bucket = put r.bucket a (rotate_list (r.bucket a)) }

unfoldable pub rotate : Ready → Ready
rotate r = rotate_at r (lowest r.bits)
