-- ===== src/Programs/TestAvl.antt =====
-- test/test_avl.c: nodes are inserted into the tree, one is searched for, and all are deleted.
use pthipth.Prelude.{
  ℕ, ◌≡◌, refl, ap, sym, subst, ◌∙◌, true, Option, none, some, List, [], ◌∷◌, ◌++◌, arith, ◌>>=◌,
  append-nil, append_assoc,
}
use pthipth.Programs.{Found}
use pthipth.Avl.{Tree, leaf, insert, delete, search_tid}
use pthipth.Avl.Balance.{IsAvl, Returns}
use pthipth.Avl.Order.{
  Entry, entries, Sorted, Sorted-split, put, put-append_ge, remove, find, has_key, search_tid-find,
}
use pthipth.Avl.Insert.{insert-put}
use pthipth.Avl.Delete.{delete-remove}

-- The loop over `pthipth_avl_insert`, of nodes given by their ids and addresses, and the one over
-- `pthipth_avl_delete`.
unfoldable pub fill : List Entry → Tree → Option Tree
fill [] t = some t
fill (e ∷ es) t = insert e.0 e.1 t >>= fill es

unfoldable pub drain : List Entry → Tree → Option Tree
drain [] t = some t
drain (e ∷ es) t = delete e.0 t >>= drain es

-- What the program prints, and finds, before and after the deletions.
unfoldable pub main : (nodes : List Entry) (tid : ℕ) → Option ((List Entry × ℕ) × (List Entry × ℕ))
unfolding fill drain
main nodes tid = do
  t ← fill nodes leaf
  t' ← drain nodes t
  some ((entries t, search_tid tid t), (entries t', search_tid tid t'))

abbrev Holds : List Entry → Tree → Type 0
Holds es t = IsAvl t × (entries t ≡ es)

found : (es : List Entry) (o : Option Tree) → Returns (Holds es) o → Found (Holds es) o
found es none r = absurd r
found es (some t) r = (t, refl, r)

returned :
    (P Q : Tree → Type 0) (o : Option Tree) → Returns P o → ((t : Tree) → P t → Q t) → Returns Q o
returned P Q none r f = r
returned P Q (some t) r f = f t r

fill-inserts :
    (t : Tree) (xs es : List Entry)
    → Holds xs t
    → Sorted (xs ++ es)
    → Found (Holds (xs ++ es)) (fill es t)
unfolding fill
fill-inserts t xs [] h s = (t, refl, (h.0, h.1 ∙ sym (append-nil xs)))
fill-inserts t xs (e ∷ es) h s =
    let (b, sx, a, se) = Sorted-split xs e es s in
    let same = append_assoc xs (e ∷ []) es in
    let last : put e.0 e.1 xs ≡ xs ++ (e ∷ []) =
      ap (put e.0 e.1) (sym (append-nil xs)) ∙ put-append_ge e.0 e.1 xs [] b in
    let (t1, q, h1) = found (xs ++ (e ∷ [])) (insert e.0 e.1 t) (
      returned _ _ (insert e.0 e.1 t) (insert-put e.0 e.1 t h.0 (subst Sorted (sym h.1) sx))
        λ u i. (i.0, i.1 ∙ ap (put e.0 e.1) h.1 ∙ last)) in
    let (t2, q2, h2) = fill-inserts t1 (xs ++ (e ∷ [])) es h1 (subst Sorted (sym same) s) in
    (t2, rw q q2, (h2.0, h2.1 ∙ same))

drain-empties :
    (t : Tree) (es : List Entry) → Holds es t → Sorted es → Found (Holds []) (drain es t)
unfolding drain
drain-empties t [] h s = (t, refl, h)
drain-empties t (e ∷ es) h s =
    let there : has_key e.0 (e ∷ es) ≡ true = ground arith in
    let gone : remove e.0 (e ∷ es) ≡ es = ground arith in
    let (t1, q, h1) = found es (delete e.0 t) (
      returned _ _ (delete e.0 t)
        (delete-remove e.0 t h.0 (subst Sorted (sym h.1) s)
          (subst (λ l. has_key e.0 l ≡ true) (sym h.1) there))
        λ u d. (d.0, d.1 ∙ ap (remove e.0) h.1 ∙ gone)) in
    let (t2, q2, h2) = drain-empties t1 es h1 s.1 in (t2, rw q q2, h2)

-- For nodes of rising ids, the program ends without a fault: it prints the nodes in their order, finds the
-- node of that id, or NULL if there is none, and then prints and finds nothing.
pub main-finds :
    (nodes : List Entry) (tid : ℕ)
    → Sorted nodes
    → main nodes tid ≡ some ((nodes, find tid nodes), ([], 0))
unfolding main
main-finds nodes tid s =
    let (t1, q1, h1) = fill-inserts leaf [] nodes (tt, refl) s in
    let (t2, q2, h2) = drain-empties t1 nodes h1 s in
    let f1 = search_tid-find tid t1 (subst Sorted (sym h1.1) s) ∙ ap (find tid) h1.1 in
    let f2 = search_tid-find tid t2 (subst Sorted (sym h2.1) tt) ∙ ap (find tid) h2.1 in
    rw (q1, q2) (rw (h1.1, f1, h2.1, f2) refl)
