-- ===== src/Avl/Insert.antt =====
-- `pthipth_avl_insert` of src/pthipth_avl.c.
use pthipth.Prelude.{
  ℕ, ◌<◌, ◌≡◌, refl, sym, ap, subst, ◌∙◌, inl, inr, Option, none, some, List, [], ◌∷◌, ◌++◌, arith,
  compare-cases,
}
use pthipth.Avl.{
  Tree, leaf, node, get_height, Crumb, in_left, in_right, rebalance, descend, attach, insert,
}
use pthipth.Avl.Order.{
  Entry, entries, fill, Above, Below, Sorted, Sorted-split, put, put-append_lt, put-append_ge,
  Below-mono, Above-mono,
}
use pthipth.Avl.Balance.{IsAvl, Returns, Returns-mono, Holds, Rebuilt, rebalance-IsAvl}

-- What the walk down finds: the id is there, or the crumbs lead to the place where it goes.
abbrev Descended : ℕ → ℕ → Tree → List Crumb → Option (List Crumb) → Type 0
Descended k p t up none = put k p (entries t) ≡ entries t
Descended k p t up (some up') =
    Holds up' 0 × (fill up' ((k, p) ∷ []) ≡ fill up (put k p (entries t)))

module _ (k p : ℕ) where
  Descended-left :
      (l : Tree) (j q h : ℕ) (r : Tree) (up : List Crumb) (o : Option (List Crumb))
      → k < j
      → Descended k p l (in_left j q h r ∷ up) o
      → Descended k p (node l j q h r) up o
  Descended-left l j q h r up none lt d =
      put-append_lt k p (entries l) (j, q) (entries r) lt ∙ ap (λ es. es ++ ((j, q) ∷ entries r)) d
  Descended-left l j q h r up (some up') lt d =
      (d.0, rw (put-append_lt k p (entries l) (j, q) (entries r) lt) d.1)

  put-right :
      (xs : List Entry) (j q : ℕ) (ys : List Entry)
      → j < k
      → Below j xs
      → put k p (xs ++ ((j, q) ∷ ys)) ≡ xs ++ ((j, q) ∷ put k p ys)
  put-right xs j q ys lt b =
      rw (put-append_ge k p xs ((j, q) ∷ ys) (Below-mono j k xs lt b))
        (ap (λ es. xs ++ es) (ground arith))

  Descended-right :
      (l : Tree) (j q h : ℕ) (r : Tree) (up : List Crumb) (o : Option (List Crumb))
      → j < k
      → Below j (entries l)
      → Descended k p r (in_right l j q h ∷ up) o
      → Descended k p (node l j q h r) up o
  Descended-right l j q h r up none lt b d =
      put-right (entries l) j q (entries r) lt b ∙ ap (λ es. entries l ++ ((j, q) ∷ es)) d
  Descended-right l j q h r up (some up') lt b d =
      (d.0, rw (put-right (entries l) j q (entries r) lt b) d.1)

  put_self :
      (xs : List Entry) (q : ℕ) (ys : List Entry)
      → Below k xs
      → put k p (xs ++ ((k, q) ∷ ys)) ≡ xs ++ ((k, q) ∷ ys)
  put_self xs q ys b =
      rw (put-append_ge k p xs ((k, q) ∷ ys) b) (ap (λ es. xs ++ es) (ground arith))

  descend-Descended :
      (t : Tree) (up : List Crumb)
      → IsAvl t
      → Sorted (entries t)
      → Holds up (get_height t)
      → Descended k p t up (descend k t up)
  unfolding descend
  descend-Descended leaf up a s hs = (hs, refl)
  descend-Descended (node l j q h r) up (al, ar, (e, (hl, hr))) s hs =
      let (bl, sl, _, sr) = Sorted-split (entries l) (j, q) (entries r) s in
      elim (compare-cases k j) [
        | inl (lt, c) ↦
            rw (c, Descended)
              (Descended-left l j q h r up _ lt (
                descend-Descended l (in_left j q h r ∷ up) al sl
                  (ar, hl, hr, subst (Holds up) e hs)))
        | inr (inl (gt, c)) ↦
            rw (c, Descended)
              (Descended-right l j q h r up _ gt bl (
                descend-Descended r (in_right l j q h ∷ up) ar sr
                  (al, hr, hl, subst (Holds up) e hs)))
        | inr (inr (eq, c)) ↦
            rw (c, Descended, ← eq) ((put_self (entries l) q (entries r) (rw eq bl)))
      ]

  Above-put : (j : ℕ) (es : List Entry) → j < k → Above j es → Above j (put k p es)
  Above-put j [] h a = (h, tt)
  Above-put j (e ∷ es) h a = ground (arith, Above-put j es h a.1)

  put-Sorted : (es : List Entry) → Sorted es → Sorted (put k p es)
  put-Sorted [] s = (tt, tt)
  put-Sorted (e ∷ es) s = ground (arith, put-Sorted es s.1, Above-put e.0 es, Above-mono k e.0 es)

abbrev pub Inserted : ℕ → ℕ → Tree → Tree → Type 0
Inserted k p t t' = IsAvl t' × (entries t' ≡ put k p (entries t)) × Sorted (entries t')

attach-put :
    (k p : ℕ) (t : Tree) (o : Option (List Crumb))
    → IsAvl t
    → Sorted (entries t)
    → Descended k p t [] o
    → Returns (Inserted k p t) (attach k p t o)
unfolding attach
attach-put k p t none a s d = (a, sym d, s)
attach-put k p t (some up) a s d =
    Returns-mono (Rebuilt up ((k, p) ∷ [])) (Inserted k p t) (rebalance (node leaf k p 1 leaf) up)
      (rebalance-IsAvl (node leaf k p 1 leaf) up 0 (tt, tt, omega arith) d.0 (omega arith)
        (omega arith))
      λ t' (a', e). (a', e ∙ d.1, subst Sorted (sym (e ∙ d.1)) (put-Sorted k p (entries t) s))

-- Inserting a node into a balanced tree sorted by id faults nowhere, and gives a balanced tree,
-- sorted by id, with the same entries and the new one in its place; a node whose id is in the tree
-- already leaves the entries as they were.
pub insert-put :
    (k p : ℕ) (t : Tree) → IsAvl t → Sorted (entries t) → Returns (Inserted k p t) (insert k p t)
unfolding insert
insert-put k p t a s = attach-put k p t (descend k t []) a s (descend-Descended k p t [] a s tt)
