-- ===== src/Bq/Stranded.antt =====
-- What becomes of the other nodes when the first node of a bucket of src/pthipth_bq.c is deleted.
use pthipth.Prelude.{
  ℕ, ◌≡◌, ◌≢◌, refl, sym, ap, subst, ◌∙◌, true, false, Option, none, some, List, [], ◌∷◌, ◌++◌,
  arith, has,
}
use pthipth.Ready
use pthipth.Ready.{Ready, buckets_count, put, first, first_of, lowest}
use pthipth.Ready.Lowest.{Lowest, lowest-Lowest}
use pthipth.Bq.{Bq, delete}
use pthipth.Bq.Represents.{Represents, Returns}
use pthipth.Bq.Delete.{Deleted, OtherShown, delete-Represents}

-- Node `m` leads the bucket of `p`, whose bit is off, and is not the head.
abbrev pub Stranded : ℕ → ℕ → Bq → Type 0
Stranded p m b = (b.table p ≡ m) × (b.bitmap p ≡ false) × (b.cur_priority m ≡ some p) × (b.head ≢ m)

Returns-mono :
    (P Q : Bq → Type 0) (o : Option Bq) → Returns P o → ((b : Bq) → P b → Q b) → Returns Q o
Returns-mono P Q none h f = h
Returns-mono P Q (some b) h f = f b h

has-first_of : (xs : List ℕ) (m : ℕ) → first xs ≡ m → m ≢ 0 → has m xs ≡ true
has-first_of [] m e h = ground arith
has-first_of (x ∷ xs) m e h = ground arith

same_bucket : {o : Option ℕ} {a p : ℕ} → o ≡ some a → o ≡ some p → a ≡ p
same_bucket e f = ground arith

module _ (b : Bq) (r : Ready) (p n m a : ℕ) (xs : List ℕ) (e : r.bucket p ≡ n ∷ m ∷ xs)
    (g : lowest (put r.bits p false) ≡ some a) (b' : Bq) (d : Deleted b r p n b') where
  left : (Ready.delete p n r).bucket p ≡ m ∷ xs
  unfolding Ready.delete
  left = rw e (ground arith)

  bits_left : (Ready.delete p n r).bits ≡ put r.bits p false
  unfolding Ready.delete
  bits_left = rw e (ground arith)

  not_shown : a ≢ p
  not_shown =
      let low =
        subst (Lowest (put r.bits p false) 0 buckets_count) g
          (lowest-Lowest (put r.bits p false)) in
      ground (arith, low.2)

  left-Stranded : Stranded p m b'
  unfolding Ready.peek
  left-Stranded = (
    (rw left at (d.0.circle p)).0,
    ap (λ f. f p) (d.0.bits ∙ bits_left) ∙ (ground arith),
    in_bucket,
    λ h. not_shown (
        same_bucket
          (d.0.member a m
            (has-first_of ((Ready.delete p n r).bucket a) m (sym shown_head ∙ h) real))
          in_bucket),
  )
    where
      in_bucket : b'.cur_priority m ≡ some p
      in_bucket = d.0.member p m (rw left (ground arith))

      real : m ≢ 0
      real = ground (arith, (rw left at (d.0.distinct p)).0)

      shown_head : b'.head ≡ first ((Ready.delete p n r).bucket a)
      shown_head = d.0.head ∙ rw (bits_left, g)

-- Whenever the first of two or more nodes of a bucket is deleted, the bit of the bucket goes although
-- nodes are left in it: the next node leads its bucket, but the head is a node of another bucket,
-- even if that has a lower priority.
pub delete-Stranded :
    (b : Bq) (r : Ready) (p n m : ℕ) (xs : List ℕ)
    → Represents b r
    → r.bucket p ≡ n ∷ m ∷ xs
    → OtherShown r p
    → Returns (Stranded p m) (delete b n)
delete-Stranded b r p n m xs rep e (a, g) =
    Returns-mono (Deleted b r p n) (Stranded p m) (delete b n)
      (delete-Represents b r p n rep (rw e (ground arith)) (a, g))
      (left-Stranded b r p n m a xs e g)

-- A bucket that holds nodes and that the scheduler does not look at.
abbrev pub Hidden : Ready → ℕ → Type 0
Hidden r p = (r.bucket p ≢ []) × (r.bits p ≡ false)

append-ne-nil : (xs : List ℕ) (n : ℕ) → xs ++ (n ∷ []) ≢ []
append-ne-nil [] n e = cc
append-ne-nil (x ∷ xs) n e = cc

insert-Hidden :
    (r : Ready) (p q n : ℕ) (xs : List ℕ)
    → r.bucket q ≡ xs
    → Hidden r p
    → Hidden (Ready.insert q n r) p
unfolding Ready.insert
insert-Hidden r p q n [] e h = ground (arith, append-ne-nil (r.bucket q) n)
insert-Hidden r p q n (x ∷ xs) e h = ground (arith, append-ne-nil (r.bucket q) n)

-- No insertion into it, nor into another bucket, shows a hidden bucket again, and a deletion only
-- does away with it if it takes the last node.
pub Hidden-stays :
    (r : Ready) (p q n : ℕ)
    → Hidden r p
    → Hidden (Ready.insert q n r) p
      × (((Ready.delete q n r).bucket p ≢ []) → Hidden (Ready.delete q n r) p)
unfolding Ready.delete
Hidden-stays r p q n h = (insert-Hidden r p q n (r.bucket q) refl h, λ k. (k, ground arith))
