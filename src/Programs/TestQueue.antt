-- ===== src/Programs/TestQueue.antt =====
-- test/test_queue.c: nodes are added to a state queue, printed, and deleted, first to last.
use pthipth.Prelude.{
  ℕ, ◌<◌, ◌≡◌, ◌≢◌, refl, sym, subst, false, true, Option, none, some, List, [], ◌∷◌, ◌++◌, length,
  arith, ◌>>=◌, has, Distinct, append-nil, append_assoc, has-append,
}
use pthipth.Programs.{Found}
use pthipth.Queue.{Queue, add, delete}
use pthipth.Queue.Represents.{Represents, Returns}
use pthipth.Queue.Add.{add-append}
use pthipth.Queue.Delete.{delete-erase}
use pthipth.Queue.Display.{display, display-nodes}

-- The loop over `pthipth_queue_add`, and the one over `pthipth_queue_delete`.
unfoldable pub fill : List ℕ → Queue → Option Queue
fill [] q = some q
fill (n ∷ ns) q = add q n >>= fill ns

unfoldable pub drain : List ℕ → Queue → Option Queue
drain [] q = some q
drain (n ∷ ns) q = delete q n >>= drain ns

-- What the program prints in its two displays, with fuel for each.
unfoldable pub main : (nodes : List ℕ) (fuel : ℕ) → Queue → Option (List ℕ × List ℕ)
unfolding fill drain
main nodes fuel q = do
  q ← fill nodes q
  shown ← display q fuel
  q ← drain nodes q
  left ← display q fuel
  some (shown, left)

found : (P : Queue → Type 0) (o : Option Queue) → Returns P o → Found P o
found P none r = absurd r
found P (some q) r = (q, refl, r)

-- The nodes of a list are addresses, and none is twice in it.
abbrev pub Nodes : List ℕ → Type 0
Nodes ns = Distinct (0 ∷ ns)

fill-adds :
    (q : Queue) (xs ns : List ℕ)
    → Represents q xs
    → Nodes (xs ++ ns)
    → Found (λ q'. Represents q' (xs ++ ns)) (fill ns q)
unfolding fill
fill-adds q xs [] r d = (q, refl, subst (Represents q) (sym (append-nil xs)) r)
fill-adds q xs (n ∷ ns) r d =
    let (z, f) = fresh xs d in
    let (q1, e, r1) = found _ (add q n) (add-append q n xs r z f) in
    let same = append_assoc xs (n ∷ []) ns in
    let (q2, e2, r2) = fill-adds q1 (xs ++ (n ∷ [])) ns r1.0 (subst Nodes (sym same) d) in
    (q2, rw e e2, subst (Represents q2) same r2)
  where
    fresh : (xs : List ℕ) → Nodes (xs ++ (n ∷ ns)) → (n ≢ 0) × (has n xs ≡ false)
    fresh [] d = (ground arith, refl)
    fresh (x ∷ xs) d =
        let rest = fresh xs (ground arith, d.1.1) in
        (rest.0, ground (arith, rest.1, has-append x xs (n ∷ ns)))

drain-empties :
    (q : Queue) (ns : List ℕ) → Represents q ns → Found (λ q'. Represents q' []) (drain ns q)
unfolding drain
drain-empties q [] r = (q, refl, r)
drain-empties q (n ∷ ns) r =
    let (q1, e, r1) = found _ (delete q n) (delete-erase q n (n ∷ ns) r (ground arith)) in
    let first : has n (n ∷ []) ≡ true = ground arith in
    let (q2, e2, r2) = drain-empties q1 ns (subst (Represents q1) (ground arith) r1.0) in
    (q2, rw e e2, r2)

-- From an empty queue, for any list of different nodes and more fuel than nodes, the program ends without a
-- fault, prints the nodes in the order in which they were added, and then prints nothing.
pub main-prints :
    (nodes : List ℕ) (fuel : ℕ) (q : Queue)
    → Represents q []
    → Nodes nodes
    → length nodes < fuel
    → main nodes fuel q ≡ some (nodes, [])
unfolding main
main-prints nodes fuel q r d f =
    let (q1, e1, r1) = fill-adds q [] nodes r d in
    let (q2, e2, r2) = drain-empties q1 nodes r1 in
    rw (e1, display-nodes q1 fuel nodes r1 f, e2)
      (rw (display-nodes q2 fuel [] r2 (omega arith)) refl)
