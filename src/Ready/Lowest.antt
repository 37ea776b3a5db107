-- ===== src/Ready/Lowest.antt =====
-- The lowest bit that is set.
use pthipth.Prelude.{
  ℕ, zero, suc, ◌+◌, ◌≤◌, ◌<◌, ◌≡◌, refl, inl, inr, Bool, true, false, Option, none, some, arith,
  ◌==◌, if◌then◌else◌, Bool-cases, ltb,
}
use pthipth.Ready.{buckets_count, put, lowest_from, lowest}

abbrev NoneIn : (ℕ → Bool) → ℕ → ℕ → Type 0
NoneIn bits i k = (b : ℕ) → i ≤ b → b < k → bits b ≡ false

-- `r` is the lowest bit set from `i` up to `k`.
abbrev pub Lowest : (ℕ → Bool) → ℕ → ℕ → Option ℕ → Type 0
Lowest bits i k none = NoneIn bits i k
Lowest bits i k (some a) = (i ≤ a) × (a < k) × (bits a ≡ true) × NoneIn bits i a

lowest_from-Lowest : (bits : ℕ → Bool) (i n : ℕ) → Lowest bits i (i + n) (lowest_from bits i n)
unfolding lowest_from
lowest_from-Lowest bits i zero = λ b l h. absurd (omega arith)
lowest_from-Lowest bits i (suc n) = elim (Bool-cases (bits i)) [
  | inl e ↦ rw e (omega arith, omega arith, e, λ b l h. absurd (omega arith))
  | inr e ↦ rw e (widen (lowest_from bits (i + 1) n) e (lowest_from-Lowest bits (i + 1) n))
]
  where
    widen :
        (o : Option ℕ)
        → bits i ≡ false
        → Lowest bits (i + 1) (i + 1 + n) o
        → Lowest bits i (i + suc n) o
    widen none e l = λ b lo hi. elim (Bool-cases (i == b)) [
      | inl same ↦ ground arith
      | inr other ↦ l b (ground arith) (ground arith)
    ]
    widen (some a) e (lo, hi, on, below) = (
      omega arith,
      omega arith,
      on,
      λ b l h. elim (Bool-cases (i == b)) [
        | inl same ↦ ground arith
        | inr other ↦ below b (ground arith) (ground arith)
      ],
    )

pub lowest-Lowest : (bits : ℕ → Bool) → Lowest bits 0 buckets_count (lowest bits)
unfolding lowest
lowest-Lowest bits = lowest_from-Lowest bits 0 buckets_count

Lowest-unique :
    (bits : ℕ → Bool) (i k : ℕ) (o o' : Option ℕ) → Lowest bits i k o → Lowest bits i k o' → o ≡ o'
Lowest-unique bits i k none none l l' = refl
Lowest-unique bits i k none (some a) l l' = ground (arith, l a)
Lowest-unique bits i k (some a) none l l' = ground (arith, l' a)
Lowest-unique bits i k (some a) (some b) l l' = ground (arith, l.3 b, l'.3 a)

lowest-eq : (bits : ℕ → Bool) (o : Option ℕ) → Lowest bits 0 buckets_count o → lowest bits ≡ o
lowest-eq bits o l = Lowest-unique bits 0 buckets_count (lowest bits) o (lowest-Lowest bits) l

-- The lowest bit after one more is set.
abbrev lower : Option ℕ → ℕ → ℕ
lower none p = p
lower (some a) p = if ltb p a then p else a

pub lowest-set :
    (bits : ℕ → Bool) (p : ℕ)
    → p < buckets_count
    → lowest (put bits p true) ≡ some (lower (lowest bits) p)
lowest-set bits p h =
    lowest-eq (put bits p true) (some (lower (lowest bits) p))
      (by_cases (lowest bits) (lowest-Lowest bits))
  where
    by_cases :
        (o : Option ℕ)
        → Lowest bits 0 buckets_count o
        → Lowest (put bits p true) 0 buckets_count (some (lower o p))
    by_cases none l = (omega arith, h, ground arith, λ b lo hi. ground (arith, l b))
    by_cases (some a) l = elim (Bool-cases (ltb p a)) [
      | inl e ↦ rw e (omega arith, h, ground arith, λ b lo hi. ground (arith, l.3 b))
      | inr e ↦ rw e (omega arith, l.1, ground arith, λ b lo hi. ground (arith, l.3 b))
    ]
