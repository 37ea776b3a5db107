-- ===== src/Bq/Insert.antt =====
-- `pthipth_bq_insert` of src/pthipth_bq.c.
use pthipth.Prelude.{
  ℕ, ◌≡◌, ◌≢◌, ◌<◌, refl, sym, ap, subst, true, false, some, List, [], ◌∷◌, ◌++◌, arith, ◌==◌,
  lt→ltb, has, has-append, Distinct, append-Distinct,
}
use pthipth.Links.{Chain-insert, has-last, update}
use pthipth.Ready
use pthipth.Ready.{Ready, buckets_count, put, first, first_of, lowest}
use pthipth.Ready.Lowest.{lowest-set}
use pthipth.Bq.{Bq, new_bucket, insert_at, insert}
use pthipth.Bq.Represents.{
  put_elim, Circle, Circle-frame, HeadView, nothing, at, head-view, Represents, Keyed, Returns,
}

-- The queue after an insertion into a bucket that is not empty.
abbrev appended : Bq → ℕ → ℕ → Bq
appended b n p = record b {
  prev = update (update b.prev (b.table p) n) n (b.table_tail p);
  next = update (update b.next n (b.table p)) (b.table_tail p) n;
  table_tail = update b.table_tail p n;
}

append-appended :
    (b : Bq) (n p : ℕ)
    → n ≢ 0
    → b.table p ≢ 0
    → b.table_tail p ≢ 0
    → insert_at b n p ≡ some (appended b n p)
unfolding insert_at
append-appended b n p h k l = ground arith

module _ (b : Bq) (r : Ready) (rep : Represents b r) (n p : ℕ) (h : n ≢ 0)
    (fresh : (q : ℕ) → has n (r.bucket q) ≡ false) where
  abbrev marked : Bq
  marked = record b { cur_priority = put b.cur_priority n (some p) }

  -- The members of the buckets after the insertion.
  insert-member :
      (q m : ℕ)
      → has m (put r.bucket p (r.bucket p ++ (n ∷ [])) q) ≡ true
      → marked.cur_priority m ≡ some q
  insert-member q m k = ground (arith, rep.member q m, has-append m (r.bucket p) (n ∷ []), fresh q)

  insert-Distinct : (q : ℕ) → Distinct (0 ∷ put r.bucket p (r.bucket p ++ (n ∷ [])) q)
  insert-Distinct =
      put_elim (λ q xs. Distinct (0 ∷ xs)) r.bucket p (r.bucket p ++ (n ∷ []))
        (append-Distinct n (0 ∷ r.bucket p) (ground (arith, fresh p)) (rep.distinct p))
        (λ q f. rep.distinct q)

  module _ (small : p < buckets_count) (keyed : Keyed b r) (e : r.bucket p ≡ []) where
    new_bucket-Circle : (q : ℕ) → Circle (new_bucket marked n p) q (put r.bucket p (n ∷ []) q)
    unfolding new_bucket
    new_bucket-Circle =
        put_elim (Circle (new_bucket marked n p)) r.bucket p (n ∷ []) (ground arith) λ q f.
          Circle-frame b (new_bucket marked n p) q (r.bucket q) (rep.circle q) (ground arith)
            (ground arith) λ m k. ground (arith, fresh q)

    new_bucket-head :
        HeadView b r
        → (new_bucket marked n p).head
          ≡ first_of (put r.bucket p (n ∷ [])) (lowest (put r.bits p true))
    unfolding new_bucket
    new_bucket-head (nothing l k) = rw (lowest-set r.bits p small, l, k) (ground arith)
    new_bucket-head (at a x xs l lt on f k ne) =
        rw (lowest-set r.bits p small, l) (ground (arith, keyed a x (rw f (ground arith))))

    new_bucket-Represents : Represents (new_bucket marked n p) (Ready.insert p n r)
    unfolding new_bucket Ready.insert Ready.peek
    new_bucket-Represents = record {
      circle = rw e new_bucket-Circle;
      distinct = insert-Distinct;
      member = insert-member;
      bits = rw e (ap (λ f. put f p true) rep.bits);
      shown = rw e (
          put_elim (λ q xs. put r.bits p true q ≡ true → xs ≢ []) r.bucket p (n ∷ []) (λ k c. cc)
            λ q f k. rep.shown q (ground arith));
      head = rw e (new_bucket-head (head-view b r rep));
    }

  module _ (x : ℕ) (xs : List ℕ) (e : r.bucket p ≡ x ∷ xs) where
    Circle-at : Circle b p (x ∷ xs)
    Circle-at = rw e at (rep.circle p)

    Distinct-at : Distinct (0 ∷ x ∷ xs)
    Distinct-at = rw e at (rep.distinct p)

    fresh_at : has n (x ∷ xs) ≡ false
    fresh_at = rw e at (fresh p)

    tail-has : has (b.table_tail p) (x ∷ xs) ≡ true
    tail-has =
        subst (λ t. has t (x ∷ xs) ≡ true) (sym Circle-at.1)
          (has-last b.next b.prev x xs x Circle-at.2)

    appended-Circle_at : Circle (appended marked n p) p (x ∷ (xs ++ (n ∷ [])))
    appended-Circle_at = (
      Circle-at.0,
      ground (arith, Circle-at, fresh_at),
      Chain-insert b.next b.prev (appended marked n p).next (appended marked n p).prev n x xs x
          Circle-at.2 fresh_at (ground (arith, has-append n xs (x ∷ []), fresh_at)) Distinct-at.1
          (append-Distinct x xs Distinct-at.1.0 Distinct-at.1.1)
          (λ q. ground (arith, Circle-at.0, Circle-at.1, tail-has, fresh_at))
          (λ q. ground (arith, Circle-at.0, Circle-at.1, tail-has, fresh_at)),
    )

    appended-Circle :
        (q : ℕ) → Circle (appended marked n p) q (put r.bucket p (x ∷ (xs ++ (n ∷ []))) q)
    appended-Circle =
        put_elim (Circle (appended marked n p)) r.bucket p (x ∷ (xs ++ (n ∷ []))) appended-Circle_at
          λ q f.
            Circle-frame b (appended marked n p) q (r.bucket q) (rep.circle q) refl (ground arith)
              λ m k. ground (
                arith,
                fresh q,
                rep.member q m k,
                rep.member p m,
                tail-has,
                Circle-at.0,
                has-table_at m,
              )
      where
        has-table_at : (m : ℕ) → has m (x ∷ xs) ≡ true → b.cur_priority m ≡ some p
        has-table_at m k = rep.member p m (rw e k)

    appended-head :
        HeadView b r → b.head ≡ first_of (put r.bucket p (x ∷ (xs ++ (n ∷ [])))) (lowest r.bits)
    appended-head (nothing l k) = rw (l, k)
    appended-head (at a y ys l lt on f k ne) = rw l (ground arith)

    appended-Represents : Represents (appended marked n p) (Ready.insert p n r)
    unfolding Ready.insert Ready.peek
    appended-Represents = record {
      circle = rw e appended-Circle;
      distinct = insert-Distinct;
      member = insert-member;
      bits = rw e rep.bits;
      shown = rw e (
          put_elim (λ q ys. r.bits q ≡ true → ys ≢ []) r.bucket p (x ∷ (xs ++ (n ∷ []))) (λ k c. cc)
            λ q f k. rep.shown q k);
      head = rw e (appended-head (head-view b r rep));
    }

-- What an insertion gives.
abbrev pub Inserted : Bq → Ready → ℕ → Bq → Type 0
Inserted b r n b' =
    Represents b' (Ready.insert (b.priority n) n r)
    × Keyed b' (Ready.insert (b.priority n) n r)
    × (b'.cur_priority ≡ put b.cur_priority n (some (b.priority n)))
    × (b'.priority ≡ b.priority)

module _ (b : Bq) (r : Ready) (rep : Represents b r) (keyed : Keyed b r) (n : ℕ) (h : n ≢ 0)
    (fresh : (q : ℕ) → has n (r.bucket q) ≡ false) (small : b.priority n < buckets_count) where
  insert-Keyed :
      (q m : ℕ) → has m ((Ready.insert (b.priority n) n r).bucket q) ≡ true → b.priority m ≡ q
  unfolding Ready.insert
  insert-Keyed q m k = ground (arith, keyed q m, has-append m (r.bucket (b.priority n)) (n ∷ []))

  insert_at-Inserted :
      (ys : List ℕ)
      → r.bucket (b.priority n) ≡ ys
      → Returns
          (Inserted b r n)
          (insert_at (marked b r rep n (b.priority n) h fresh) n (b.priority n))
  unfolding insert_at new_bucket
  insert_at-Inserted [] e =
      let empty : (b.table (b.priority n) == 0) ≡ true =
        ground (arith, (rw e at (rep.circle (b.priority n))).0) in
      rw empty (
        new_bucket-Represents b r rep n (b.priority n) h fresh small keyed e,
        insert-Keyed,
        refl,
        refl,
      )
  insert_at-Inserted (x ∷ xs) e =
      let p = b.priority n in
      let c = Circle-at b r rep n p h fresh x xs e in
      let d = Distinct-at b r rep n p h fresh x xs e in
      let t = tail-has b r rep n p h fresh x xs e in
      let a =
        append-appended (marked b r rep n p h fresh) n p h (ground (arith, c.0, d.0))
          (ground (arith, t, d.0)) in
      subst (Returns (Inserted b r n)) (sym a)
        (appended-Represents b r rep n p h fresh x xs e, insert-Keyed, refl, refl)

-- Inserting a node that is in no bucket puts it at the end of the bucket of its priority, sets the bit
-- of a bucket that was empty, and gives the head that the buckets and bits demand; the insertion
-- faults nowhere if the priority is an index of the table.
pub insert-Represents :
    (b : Bq) (r : Ready) (n : ℕ)
    → Represents b r
    → Keyed b r
    → n ≢ 0
    → ((q : ℕ) → has n (r.bucket q) ≡ false)
    → b.priority n < buckets_count
    → Returns (Inserted b r n) (insert b n)
unfolding insert
insert-Represents b r n rep keyed h fresh small =
    rw (lt→ltb (b.priority n) buckets_count small)
      (insert_at-Inserted b r rep keyed n h fresh small (r.bucket (b.priority n)) refl)
