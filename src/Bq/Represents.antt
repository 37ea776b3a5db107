-- ===== src/Bq/Represents.antt =====
-- When the pointers of src/pthipth_bq.c hold the buckets and bits of an abstract queue.
use pthipth.Prelude.{
  ℕ, ◌≡◌, refl, subst, ==_iff, Bool-cases, inl, inr, ◌≢◌, ◌<◌, true, false, Option, none, some,
  List, [], ◌∷◌, arith, ◌==◌, has, Distinct, has-append, ◌∙◌,
}
use pthipth.Links.{Chain, Chain-frame}
use pthipth.Ready.{put, Ready, buckets_count, first_of, lowest}
use pthipth.Ready.Lowest.{Lowest, lowest-Lowest}
use pthipth.Ready
use pthipth.Bq.{Bq}

-- The bucket of priority `p` is a circle through the nodes of the list.
abbrev pub Circle : Bq → ℕ → List ℕ → Type 0
Circle b p [] = (b.table p ≡ 0) × (b.table_tail p ≡ 0)
Circle b p (x ∷ xs) = (b.table p ≡ x) × (b.table_tail p ≡ b.prev x) × Chain b.next b.prev x xs x

pub record Represents (b : Bq) (r : Ready) : Type 0 where
  pub circle : (p : ℕ) → Circle b p (r.bucket p)
  pub distinct : (p : ℕ) → Distinct (0 ∷ r.bucket p)
  pub member : (p n : ℕ) → has n (r.bucket p) ≡ true → b.cur_priority n ≡ some p
  pub bits : b.bitmap ≡ r.bits
  pub shown : (p : ℕ) → r.bits p ≡ true → r.bucket p ≢ []
  pub head : b.head ≡ Ready.peek r

-- Each node stands in the bucket of its priority.
abbrev pub Keyed : Bq → Ready → Type 0
Keyed b r = (p n : ℕ) → has n (r.bucket p) ≡ true → b.priority n ≡ p

abbrev pub Returns : (Bq → Type 0) → Option Bq → Type 0
Returns P none = ⊥
Returns P (some b) = P b

-- The links of the nodes of other buckets are not touched.
pub Circle-frame :
    (b b' : Bq) (q : ℕ) (xs : List ℕ)
    → Circle b q xs
    → b'.table q ≡ b.table q
    → b'.table_tail q ≡ b.table_tail q
    → ((m : ℕ) → has m xs ≡ true → (b'.next m ≡ b.next m) × (b'.prev m ≡ b.prev m))
    → Circle b' q xs
Circle-frame b b' q [] c e f g = ground arith
Circle-frame b b' q (x ∷ xs) c e f g = (
  e ∙ c.0,
  ground (arith, g x),
  Chain-frame b.next b.prev b'.next b'.prev x xs x c.2 (λ p h. (g p h).0)
      (λ p h. (g p (ground (arith, has-append p xs (x ∷ [])))).1),
)

-- To show a property of the values of an updated function, at the index of the update and elsewhere.
pub put_elim {ℓ κ} :
    {A : Type ℓ} (P : ℕ → A → Type κ) (f : ℕ → A) (p : ℕ) (v : A)
    → P p v
    → ((q : ℕ) → (p == q) ≡ false → P q (f q))
    → (q : ℕ) → P q (put f p v q)
put_elim P f p v here there q = elim (Bool-cases (p == q)) [
  | inl e ↦ rw e (subst (λ z. P z v) ((==_iff p q).0 e) here)
  | inr e ↦ rw e (there q e)
]

-- What the head is: NULL where no bit is set, or else the first node of the lowest bucket shown.
pub data HeadView (b : Bq) (r : Ready) : Type 0 where
  nothing : lowest r.bits ≡ none → b.head ≡ 0 → HeadView b r
  at :
      (a x : ℕ) (xs : List ℕ)
      → lowest r.bits ≡ some a
      → a < buckets_count
      → r.bits a ≡ true
      → r.bucket a ≡ x ∷ xs
      → b.head ≡ x
      → x ≢ 0
      → HeadView b r

module _ (b : Bq) (r : Ready) (rep : Represents b r) where
  view_at :
      (a : ℕ) (xs : List ℕ)
      → lowest r.bits ≡ some a
      → a < buckets_count
      → r.bits a ≡ true
      → r.bucket a ≡ xs
      → HeadView b r
  unfolding Ready.peek
  view_at a [] e lt on f = absurd (rep.shown a on f)
  view_at a (x ∷ xs) e lt on f =
      at a x xs e lt on f (rep.head ∙ rw (e, f)) (ground (arith, (rw f at (rep.distinct a)).0))

  view_of : (o : Option ℕ) → lowest r.bits ≡ o → Lowest r.bits 0 buckets_count o → HeadView b r
  unfolding Ready.peek
  view_of none e l = nothing e (rep.head ∙ rw e)
  view_of (some a) e l = view_at a (r.bucket a) e l.1 l.2 refl

  pub head-view : HeadView b r
  head-view = view_of (lowest r.bits) refl (lowest-Lowest r.bits)
