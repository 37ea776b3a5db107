-- ===== src/Bq/Unlinked.antt =====
-- The links, the table and the map of src/pthipth_bq.c after a node of a bucket has been unlinked.
use pthipth.Prelude.{
  ℕ, ◌≡◌, ◌≢◌, refl, sym, ap, subst, inl, inr, true, false, none, some, List, [], ◌∷◌, ◌++◌, arith,
  ◌==◌, if◌then◌else◌, has, has-append, has-erase, erase, erase_last, erase-Distinct, Distinct,
  append-Distinct, Bool-cases, ==_iff, ◌>>=◌,
}
use pthipth.Links.{
  Chain, Chain-erase, Chain-snoc, has-first, has-last, has-prev, has-next, next-prev, prev-next,
  update,
}
use pthipth.Ready
use pthipth.Ready.{Ready, buckets_count, put, first, first_of, lowest}
use pthipth.Bq.{Bq, unlink, drop_node, forget}
use pthipth.Bq.Represents.{
  put_elim, Circle, Circle-frame, HeadView, nothing, at, head-view, Represents,
}

-- After the node's neighbours have been linked to one another.
abbrev unlinked : Bq → ℕ → Bq
unlinked b n = record b {
  prev = update b.prev (b.next n) (b.prev n);
  next = update b.next (b.prev n) (b.next n);
}

pub unlink-unlinked :
    (b : Bq) (n : ℕ) → b.next n ≢ 0 → b.prev n ≢ 0 → unlink b n ≡ some (unlinked b n)
unfolding unlink
unlink-unlinked b n h k =
    let a : (b.next n == 0) ≡ false = ground arith in
    let c : (b.prev n == 0) ≡ false = ground arith in
    let kept : (if b.next n == n then b.prev n else b.prev n) ≡ b.prev n = ground arith in
    rw (a, kept, c)

table-first : (b : Bq) (q : ℕ) (xs : List ℕ) → Circle b q xs → b.table q ≡ first xs
table-first b q [] c = c.0
table-first b q (x ∷ xs) c = c.0

module _ (b : Bq) (r : Ready) (rep : Represents b r) (p n x : ℕ) (xs : List ℕ)
    (e : r.bucket p ≡ x ∷ xs) (k : has n (x ∷ xs) ≡ true) where
  Circle-at : Circle b p (x ∷ xs)
  Circle-at = rw e at (rep.circle p)

  Distinct-at : Distinct (0 ∷ x ∷ xs)
  Distinct-at = rw e at (rep.distinct p)

  -- The circle, cut open before its first node.
  Chain-at : Chain b.next b.prev x xs x
  Chain-at = Circle-at.2

  whole_has : has n (xs ++ (x ∷ [])) ≡ true
  whole_has = ground (arith, has-append n xs (x ∷ []))

  pub prev-has : has (b.prev n) (x ∷ xs) ≡ true
  prev-has = elim (Bool-cases (n == x)) [
    | inl f ↦
        subst (λ m. has (b.prev m) (x ∷ xs) ≡ true) (sym ((==_iff n x).0 f))
          (has-last b.next b.prev x xs x Chain-at)
    | inr f ↦ has-prev b.next b.prev x xs x n Chain-at (ground arith)
  ]

  pub next-has : has (b.next n) (x ∷ xs) ≡ true
  next-has = elim (Bool-cases (n == x)) [
    | inl f ↦
        subst (λ m. has (b.next m) (x ∷ xs) ≡ true) (sym ((==_iff n x).0 f))
          (ground
            (arith, has-first b.next b.prev x xs x Chain-at, has-append (b.next x) xs (x ∷ [])))
    | inr f ↦
        ground (arith, has-next b.next b.prev x xs x n Chain-at, has-append (b.next n) xs (x ∷ []))
  ]

  back : b.prev (b.next n) ≡ n
  back = prev-next b.next b.prev x xs x n Chain-at k

  forth : b.next (b.prev n) ≡ n
  forth = next-prev b.next b.prev x xs x n Chain-at whole_has

  -- The nodes of the other buckets keep their links.
  others :
      (b' : Bq)
      → ((m : ℕ) → m ≢ n → b'.next m ≡ update b.next (b.prev n) (b.next n) m)
      → ((m : ℕ) → m ≢ n → b'.prev m ≡ update b.prev (b.next n) (b.prev n) m)
      → (q : ℕ) → (p == q) ≡ false
      → (m : ℕ) → has m (r.bucket q) ≡ true
      → (b'.next m ≡ b.next m) × (b'.prev m ≡ b.prev m)
  others b' f g q d m h = ground (
    arith,
    f m,
    g m,
    rep.member q m h,
    mine n k,
    mine (b.prev n) prev-has,
    mine (b.next n) next-has,
  )
    where
      mine : (j : ℕ) → has j (x ∷ xs) ≡ true → b.cur_priority j ≡ some p
      mine j l = rep.member p j (rw e l)

  pub ne_zero : (j : ℕ) → has j (x ∷ xs) ≡ true → j ≢ 0
  ne_zero j l = ground (arith, Distinct-at.0)

  delete-Distinct : (q : ℕ) → Distinct (0 ∷ put r.bucket p (erase n (r.bucket p)) q)
  delete-Distinct =
      put_elim (λ q ys. Distinct (0 ∷ ys)) r.bucket p (erase n (r.bucket p))
        (ground (arith, has-erase 0 n (r.bucket p), erase-Distinct n (r.bucket p), rep.distinct p))
        (λ q g. rep.distinct q)

  delete-member :
      (q m : ℕ)
      → has m (put r.bucket p (erase n (r.bucket p)) q) ≡ true
      → put b.cur_priority n none m ≡ some q
  delete-member =
      put_elim (λ q ys. (m : ℕ) → has m ys ≡ true → put b.cur_priority n none m ≡ some q) r.bucket p
        (erase n (r.bucket p))
        (λ m h. ground (arith, has-erase m n (r.bucket p), (rep.distinct p).1, rep.member p m))
        (λ q g m h. ground (arith, rep.member q m h, rep.member p n (rw e k)))

  -- The result of deleting a node that is not the first of its bucket.
  module _ (f : (n == x) ≡ false) where
    abbrev later : Bq
    later = record (forget (unlinked b n) n) {
      table_tail =
          if n == b.table_tail p
          then update b.table_tail p ((unlinked b n).prev (b.table_tail p))
          else b.table_tail;
    }

    later-Circle_at : Circle later p (x ∷ erase n xs)
    unfolding forget
    later-Circle_at = (
      Circle-at.0,
      ground (
        arith,
        Circle-at.1,
        back,
        next-prev b.next b.prev x xs x x Chain-at (ground (arith, has-append x xs (x ∷ []))),
      ),
      Chain-erase b.next b.prev later.next later.prev n (λ q g. ground arith) (λ q g. ground arith)
          x xs x Chain-at (ground arith) Distinct-at.1
          (append-Distinct x xs Distinct-at.1.0 Distinct-at.1.1),
    )

    later-Circle : (q : ℕ) → Circle later q (put r.bucket p (x ∷ erase n xs) q)
    unfolding forget
    later-Circle = put_elim (Circle later) r.bucket p (x ∷ erase n xs) later-Circle_at λ q g.
        Circle-frame b later q (r.bucket q) (rep.circle q) refl (ground arith)
          (others later (λ m h. ground arith) (λ m h. ground arith) q g)

    pub drop-later : drop_node (unlinked b n) n p >>= (λ b'. some (forget b' n)) ≡ some later
    unfolding drop_node forget
    drop-later =
        let not_first : (n == b.table p) ≡ false = ground (arith, Circle-at.0) in
        rw not_first (elim (Bool-cases (n == b.table_tail p)) [ inl g ↦ rw g | inr g ↦ rw g ])

    later-head : HeadView b r → b.head ≡ first_of (put r.bucket p (x ∷ erase n xs)) (lowest r.bits)
    later-head (nothing l h) = rw (l, h)
    later-head (at a y ys l lt on g h ne) = rw l (ground arith)

    pub later-Represents : Represents later (Ready.delete p n r)
    unfolding Ready.delete Ready.peek forget
    later-Represents = record {
      circle = rw (e, f) later-Circle;
      distinct = delete-Distinct;
      member = delete-member;
      bits = rw (e, x==n) rep.bits;
      shown =
          rw (e, f, x==n)
            (put_elim (λ q ys. r.bits q ≡ true → ys ≢ []) r.bucket p (x ∷ erase n xs) (λ h c. cc)
              λ q g h. rep.shown q h);
      head = rw (e, f, x==n) (later-head (head-view b r rep));
    }
      where
        x==n : (x == n) ≡ false
        x==n = ground arith

  -- The result of deleting the first node, when `active` is the lowest bit left.
  module _ (f : n ≡ x) (active : ℕ) (g : lowest (put r.bits p false) ≡ some active) where
    abbrev second : ℕ
    second = if b.table p == (unlinked b n).next n then 0 else (unlinked b n).next n

    abbrev headless : Bq
    headless = record (forget (unlinked b n) n) {
      table = update b.table p second;
      table_tail = update b.table_tail p (if second == 0 then 0 else b.table_tail p);
      bitmap = put b.bitmap p false;
      head = update b.table p second active;
    }

    headless-Circle_at : (ys : List ℕ) → xs ≡ ys → Circle headless p ys
    unfolding forget
    headless-Circle_at [] h =
        let c : Chain b.next b.prev x [] x = subst (λ zs. Chain b.next b.prev x zs x) h Chain-at in
        ground (arith, c, Circle-at.0)
    headless-Circle_at (y ∷ ys) h =
        let c : Chain b.next b.prev x (y ∷ ys) x =
          subst (λ zs. Chain b.next b.prev x zs x) h Chain-at in
        let d : Distinct (0 ∷ x ∷ y ∷ ys) = subst (λ zs. Distinct (0 ∷ x ∷ zs)) h Distinct-at in
        let d_end : Distinct (y ∷ (ys ++ (x ∷ []))) = append-Distinct x (y ∷ ys) d.1.0 d.1.1 in
        let open_chain = Chain-snoc b.next b.prev y ys x y c.2 c.0 c.1 in
        let rest =
          Chain-erase b.next b.prev headless.next headless.prev n (λ q i. ground arith)
            (λ q i. ground arith) y (ys ++ (x ∷ [])) y open_chain
            (ground (arith, has-append x ys (x ∷ []))) d_end
            (append-Distinct y (ys ++ (x ∷ [])) d_end.0 d_end.1) in
        let same : erase n (ys ++ (x ∷ [])) ≡ ys = rw f (erase_last x ys (ground arith)) in
        (
          ground (arith, c, d, Circle-at.0),
          ground (arith, c, d, Circle-at.0, Circle-at.1),
          subst (λ zs. Chain headless.next headless.prev y zs y) same rest,
        )

    headless-Circle : (q : ℕ) → Circle headless q (put r.bucket p xs q)
    unfolding forget
    headless-Circle = put_elim (Circle headless) r.bucket p xs (headless-Circle_at xs refl) λ q g.
        Circle-frame b headless q (r.bucket q) (rep.circle q) (ground arith) (ground arith)
          (others headless (λ m h. ground arith) (λ m h. ground arith) q g)

    pub drop-headless : drop_node (unlinked b n) n p >>= (λ b'. some (forget b' n)) ≡ some headless
    unfolding drop_node forget
    drop-headless =
        let is_first : (n == b.table p) ≡ true = ground (arith, Circle-at.0) in
        let left : lowest (put b.bitmap p false) ≡ some active = rw rep.bits g in
        rw (is_first, left)

    pub headless-Represents : Represents headless (Ready.delete p n r)
    unfolding Ready.delete Ready.peek forget
    headless-Represents = record {
      circle = rw (e, n==x) headless-Circle;
      distinct = delete-Distinct;
      member = delete-member;
      bits = rw (e, x==n) (ap (λ z. put z p false) rep.bits);
      shown =
          rw (e, n==x, x==n)
            (put_elim (λ q ys. put r.bits p false q ≡ true → ys ≢ []) r.bucket p xs
              (λ h. ground arith) λ q i h. rep.shown q (ground arith));
      head = rw (e, n==x, x==n, g) (table-first headless active _ (headless-Circle active));
    }
      where
        x==n : (x == n) ≡ true
        x==n = ground arith

        n==x : (n == x) ≡ true
        n==x = ground arith
