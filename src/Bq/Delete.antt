-- ===== src/Bq/Delete.antt =====
-- `pthipth_bq_delete` of src/pthipth_bq.c.
use pthipth.Prelude.{
  ℕ, ◌≡◌, ◌≢◌, refl, sym, subst, inl, inr, true, false, ◌||◌, none, some, List, [], ◌∷◌, arith,
  ◌==◌, has, Bool-cases, ==_iff, ◌>>=◌,
}
use pthipth.Ready
use pthipth.Ready.{Ready, buckets_count, put, first, first_of, lowest}
use pthipth.Ready.Lowest.{Lowest, lowest-Lowest}
use pthipth.Bq.{Bq, drop_node, forget, delete_from, delete}
use pthipth.Bq.Represents.{HeadView, nothing, at, head-view, Represents, Returns}
use pthipth.Bq.Unlinked.{
  drop-headless, headless-Represents, drop-later, later-Represents, unlink-unlinked, prev-has,
  next-has, ne_zero,
}

-- What a deletion gives.
abbrev pub Deleted : Bq → Ready → ℕ → ℕ → Bq → Type 0
Deleted b r p n b' =
    Represents b' (Ready.delete p n r)
    × (b'.cur_priority ≡ put b.cur_priority n none)
    × (b'.priority ≡ b.priority)

-- Some bucket other than that of `p` is shown: in the library, that of the idle thread.
abbrev pub OtherShown : Ready → ℕ → Type 0
OtherShown r p = (a : ℕ) × (lowest (put r.bits p false) ≡ some a)

module _ (b : Bq) (r : Ready) (rep : Represents b r) where
  head-ne-zero : (p : ℕ) → OtherShown r p → HeadView b r → b.head ≢ 0
  head-ne-zero p (a, g) (nothing l h) =
      let low =
        subst (Lowest (put r.bits p false) 0 buckets_count) g
          (lowest-Lowest (put r.bits p false)) in
      let off = subst (Lowest r.bits 0 buckets_count) l (lowest-Lowest r.bits) in
      ground (arith, low.2, off a (omega arith) low.1)
  head-ne-zero p other (at a x xs l lt on f k ne) = ground arith

  module _ (p n x : ℕ) (xs : List ℕ) (e : r.bucket p ≡ x ∷ xs) (k : has n (x ∷ xs) ≡ true) where
    delete_from-Deleted : OtherShown r p → Returns (Deleted b r p n) (delete_from b n (some p))
    unfolding delete_from
    delete_from-Deleted (a, g) =
        let u =
          unlink-unlinked b n
            (ne_zero b r rep p n x xs e k (b.next n) (next-has b r rep p n x xs e k))
            (ne_zero b r rep p n x xs e k (b.prev n) (prev-has b r rep p n x xs e k)) in
        elim (Bool-cases (n == x)) [
          | inl f ↦
              let s = (==_iff n x).0 f in
              subst
                (λ o.
                  Returns (Deleted b r p n)
                    (o >>= λ b'. drop_node b' n p >>= λ b''. some (forget b'' n)))
                (sym u)
                (subst (Returns (Deleted b r p n)) (sym (drop-headless b r rep p n x xs e k s a g))
                  (headless-Represents b r rep p n x xs e k s a g, refl, refl))
          | inr f ↦
              subst
                (λ o.
                  Returns (Deleted b r p n)
                    (o >>= λ b'. drop_node b' n p >>= λ b''. some (forget b'' n)))
                (sym u)
                (subst (Returns (Deleted b r p n)) (sym (drop-later b r rep p n x xs e k f))
                  (later-Represents b r rep p n x xs e k f, refl, refl))
        ]

  delete_from-has :
      (p n : ℕ) (xs : List ℕ)
      → r.bucket p ≡ xs
      → has n xs ≡ true
      → OtherShown r p
      → Returns (Deleted b r p n) (delete_from b n (some p))
  delete_from-has p n [] e k o = cc
  delete_from-has p n (x ∷ xs) e k o = delete_from-Deleted p n x xs e k o

-- Deleting a node of a bucket takes it out of the bucket, drops the bit of the bucket if the node was
-- its first, marks the node as being in no bucket, and gives the head that the buckets and bits
-- left demand; it faults nowhere if a bit of another bucket is set.
pub delete-Represents :
    (b : Bq) (r : Ready) (p n : ℕ)
    → Represents b r
    → has n (r.bucket p) ≡ true
    → OtherShown r p
    → Returns (Deleted b r p n) (delete b n)
unfolding delete
delete-Represents b r p n rep k other =
    let real : (n == 0 || b.head == 0) ≡ false =
      ground (arith, head-ne-zero b r rep p other (head-view b r rep), (rep.distinct p).0) in
    rw (real, rep.member p n k) (delete_from-has b r rep p n (r.bucket p) refl k other)

-- A node that is in no bucket may be deleted: nothing changes.
pub delete_unqueued : (b : Bq) (n : ℕ) → b.cur_priority n ≡ none → delete b n ≡ some b
unfolding delete
delete_unqueued b n h = rw h (ground arith)
