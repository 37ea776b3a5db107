-- ===== src/Bq/Rotate.antt =====
-- `pthipth_bq_rotate` of src/pthipth_bq.c.
use pthipth.Prelude.{
  ℕ, ◌≡◌, ◌≢◌, refl, sym, subst, fun_ext, true, false, ◌||◌, some, List, [], ◌∷◌, ◌++◌, arith, ◌==◌,
  has, has-append, Distinct, append-Distinct,
}
use pthipth.Links.{Chain-snoc, update}
use pthipth.Ready
use pthipth.Ready.{Ready, buckets_count, put, first, first_of, lowest, rotate_list}
use pthipth.Bq.{Bq, rotate}
use pthipth.Bq.Represents.{
  put_elim, Circle, Circle-frame, HeadView, nothing, at, head-view, Represents, Returns,
}

put_self {ℓ} : {A : Type ℓ} (f : ℕ → A) (p : ℕ) (v : A) → f p ≡ v → put f p v ≡ f
put_self f p v e = fun_ext (put_elim (λ q w. w ≡ f q) f p v (sym e) (λ q g. refl))

module _ (b : Bq) (r : Ready) (rep : Represents b r) (a x y : ℕ) (ys : List ℕ)
    (l : lowest r.bits ≡ some a) (e : r.bucket a ≡ x ∷ y ∷ ys) (h : b.head ≡ x) where
  abbrev turned : Bq
  turned = record b {
    table_tail = update b.table_tail a b.head;
    head = b.next b.head;
    table = update b.table a (b.next b.head);
  }

  Circle-at : Circle b a (x ∷ y ∷ ys)
  Circle-at = rw e at (rep.circle a)

  Distinct-at : Distinct (0 ∷ x ∷ y ∷ ys)
  Distinct-at = rw e at (rep.distinct a)

  next-head : b.next b.head ≡ y
  next-head = rw h Circle-at.2.0

  turned-Circle_at : Circle turned a (y ∷ (ys ++ (x ∷ [])))
  turned-Circle_at = (
    ground (arith, next-head),
    ground (arith, h, Circle-at.2.1),
    Chain-snoc b.next b.prev y ys x y Circle-at.2.2 Circle-at.2.0 Circle-at.2.1,
  )

  turned-Represents :
      Represents turned (record r { bucket = put r.bucket a (y ∷ (ys ++ (x ∷ []))) })
  unfolding Ready.peek
  turned-Represents = record {
    circle = put_elim (Circle turned) r.bucket a (y ∷ (ys ++ (x ∷ []))) turned-Circle_at λ q g.
        Circle-frame b turned q (r.bucket q) (rep.circle q) (ground arith) (ground arith)
          (λ m k. (refl, refl));
    distinct =
        put_elim (λ q zs. Distinct (0 ∷ zs)) r.bucket a (y ∷ (ys ++ (x ∷ [])))
          (
            ground (arith, Distinct-at.0, has-append 0 ys (x ∷ [])),
            append-Distinct x (y ∷ ys) Distinct-at.1.0 Distinct-at.1.1,
          )
          (λ q g. rep.distinct q);
    member =
        put_elim (λ q zs. (m : ℕ) → has m zs ≡ true → b.cur_priority m ≡ some q) r.bucket a
          (y ∷ (ys ++ (x ∷ [])))
          (λ m k. rep.member a m (rw e (ground (arith, has-append m ys (x ∷ [])))))
          (λ q g. rep.member q);
    bits = rep.bits;
    shown =
        put_elim (λ q zs. r.bits q ≡ true → zs ≢ []) r.bucket a (y ∷ (ys ++ (x ∷ []))) (λ k c. cc)
          (λ q g. rep.shown q);
    head = rw l (ground (arith, next-head));
  }

  rotate-turned : rotate b ≡ some turned
  unfolding rotate
  rotate-turned =
      let many : (b.head == 0 || b.head == b.next b.head) ≡ false =
        ground (arith, h, next-head, Distinct-at.0, Distinct-at.1.0) in
      let at_head : b.cur_priority b.head ≡ some a = rep.member a b.head (rw e (ground arith)) in
      rw (many, at_head)

module _ (b : Bq) (r : Ready) (rep : Represents b r) where
  rotate_bucket :
      (a x : ℕ) (xs : List ℕ)
      → lowest r.bits ≡ some a
      → r.bucket a ≡ x ∷ xs
      → b.head ≡ x
      → Returns (λ b'. Represents b' (Ready.rotate r)) (rotate b)
  unfolding Ready.rotate rotate
  rotate_bucket a x [] l e h =
      let alone : (b.head == 0 || b.head == b.next b.head) ≡ true =
        ground (arith, h, (rw e at (rep.circle a)).2.0) in
      let same : put r.bucket a (x ∷ []) ≡ r.bucket = put_self r.bucket a (x ∷ []) e in
      rw (alone, l, e) (subst (λ f. Represents b (record r { bucket = f })) (sym same) rep)
  rotate_bucket a x (y ∷ ys) l e h =
      subst (Returns (λ b'. Represents b' (Ready.rotate r)))
        (sym (rotate-turned b r rep a x y ys l e h))
        (rw (l, e) (turned-Represents b r rep a x y ys l e h))

  rotate_view : HeadView b r → Returns (λ b'. Represents b' (Ready.rotate r)) (rotate b)
  unfolding Ready.rotate rotate
  rotate_view (nothing l h) =
      let empty : (b.head == 0 || b.head == b.next b.head) ≡ true = ground arith in
      rw (empty, l) rep
  rotate_view (at a x xs l lt on e h ne) = rotate_bucket a x xs l e h

-- Rotation moves the first node of the head's bucket to its end and the head to the node after it,
-- leaves the other buckets as they are, and never faults.
pub rotate-Represents :
    (b : Bq) (r : Ready)
    → Represents b r
    → Returns (λ b'. Represents b' (Ready.rotate r)) (rotate b)
rotate-Represents b r rep = rotate_view b r rep (head-view b r rep)
