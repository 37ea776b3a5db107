-- ===== src/Avl/Balance.antt =====
-- Rebalancing in src/pthipth_avl.c: no NULL is dereferenced, the order of the entries stays, and the
-- heights come out right.
use pthipth.Prelude.{
  subst, tests, ge→ltb, Bool-cases, ltb, inl, inr, ℕ, suc, ◌+◌, ◌≤◌, max, ◌≡◌, refl, ◌⊎◌, Option,
  none, some, List, [], ◌∷◌, ◌++◌, append_assoc, arith, ◌>>=◌,
}
use pthipth.Avl.{
  Tree, leaf, node, get_height, balance_node, balance, fix_left, fix_right, Crumb, in_left,
  in_right, rebalance,
}
use pthipth.Avl.Order.{Entry, entries, fill}

abbrev Level : Tree → Tree → Type 0
Level l r = (get_height l ≤ get_height r + 1) × (get_height r ≤ get_height l + 1)

-- Every cached height is right, and the heights of two siblings differ by one at most.
abbrev pub IsAvl : Tree → Type 0
IsAvl leaf = Unit
IsAvl (node l k p h r) =
    IsAvl l × IsAvl r × ((h ≡ suc (max (get_height l) (get_height r))) × Level l r)

-- The computation returns a tree, and the tree satisfies `P`.
abbrev pub Returns : (Tree → Type 0) → Option Tree → Type 0
Returns P none = ⊥
Returns P (some t) = P t

-- What rebalancing a node with children `l` and `r` gives.
abbrev Balanced : Tree → Tree → List Entry → Tree → Type 0
Balanced l r es t =
    IsAvl t
    × (entries t ≡ es)
    × (((get_height t ≡ suc (max (get_height l) (get_height r))) × Level l r)
        ⊎ ((max (get_height l) (get_height r) ≤ get_height t)
            × (get_height t ≤ suc (max (get_height l) (get_height r)))
            × ((get_height l ≡ get_height r + 2) ⊎ (get_height r ≡ get_height l + 2))))

module _ (k p h : ℕ) where
  fix_left-Balanced :
      (l r : Tree)
      → IsAvl l
      → IsAvl r
      → get_height l ≡ get_height r + 2
      → Returns (Balanced l r (entries l ++ ((k, p) ∷ entries r))) (fix_left l k p h r)
  unfolding fix_left
  fix_left-Balanced leaf r al ar d = absurd (omega arith)
  fix_left-Balanced (node a xk xp xh leaf) r (aa, _, rest) ar d =
      rw (ge→ltb (get_height a) 0 (omega arith))
        ((aa, (tt, ar, omega arith), omega arith), simp append_assoc, inr (omega arith))
  fix_left-Balanced (node a xk xp xh (node b yk yp yh c)) r (aa, (ab, ac, rest'), rest) ar d =
      elim (Bool-cases (ltb (get_height a) yh)) [
        | inl e ↦ rw e (
          ((aa, ab, omega (tests, e)), (ac, ar, omega (tests, e)), omega (tests, e)),
          simp append_assoc,
          inr (omega (tests, e)),
        )
        | inr e ↦ rw e (
          (aa, ((ab, ac, rest'), ar, omega (tests, e)), omega (tests, e)),
          simp append_assoc,
          inr (omega (tests, e)),
        )
      ]

  fix_right-Balanced :
      (l r : Tree)
      → IsAvl l
      → IsAvl r
      → get_height r ≡ get_height l + 2
      → Returns (Balanced l r (entries l ++ ((k, p) ∷ entries r))) (fix_right l k p h r)
  unfolding fix_right
  fix_right-Balanced l leaf al ar d = absurd (omega arith)
  fix_right-Balanced l (node leaf xk xp xh c) al (_, ac, rest) d =
      rw (ge→ltb (get_height c) 0 (omega arith))
        (((al, tt, omega arith), ac, omega arith), simp append_assoc, inr (omega arith))
  fix_right-Balanced l (node (node a yk yp yh b) xk xp xh c) al ((aa, ab, rest'), ac, rest) d =
      elim (Bool-cases (ltb (get_height c) yh)) [
        | inl e ↦ rw e (
          ((al, aa, omega (tests, e)), (ab, ac, omega (tests, e)), omega (tests, e)),
          simp append_assoc,
          inr (omega (tests, e)),
        )
        | inr e ↦ rw e (
          ((al, (aa, ab, rest'), omega (tests, e)), ac, omega (tests, e)),
          simp append_assoc,
          inr (omega (tests, e)),
        )
      ]

balance_node-Balanced :
    (k p h : ℕ) (l r : Tree)
    → h ≡ suc (max (get_height l) (get_height r))
    → IsAvl l
    → IsAvl r
    → get_height l ≤ get_height r + 2
    → get_height r ≤ get_height l + 2
    → Returns (Balanced l r (entries l ++ ((k, p) ∷ entries r))) (balance_node l k p h r)
unfolding balance_node
balance_node-Balanced k p h l r e al ar hl hr =
    elim (Bool-cases (ltb (get_height r + 1) (get_height l))) [
      | inl big ↦ rw big (fix_left-Balanced k p h l r al ar (omega (tests, big)))
      | inr small ↦ rw small (elim (Bool-cases (ltb (get_height l + 1) (get_height r))) [
        | inl big' ↦ rw big' (fix_right-Balanced k p h l r al ar (omega (tests, big')))
        | inr small' ↦
            rw small'
              ((al, ar, omega (tests, small, small')), refl, inl (omega (tests, small, small')))
      ])
    ]

module _ (k p h : ℕ) where
  -- Rebalancing a node whose subtrees differ by two at most gives a balanced tree with the same
  -- entries, as high as the node was or, after a rotation, one less.
  balance-Balanced :
      (l r : Tree)
      → IsAvl l
      → IsAvl r
      → get_height l ≤ get_height r + 2
      → get_height r ≤ get_height l + 2
      → Returns (Balanced l r (entries l ++ ((k, p) ∷ entries r))) (balance (node l k p h r))
  unfolding balance
  balance-Balanced l r al ar hl hr = balance_node-Balanced k p _ l r (omega arith) al ar hl hr

-- The nodes above the hole, when the subtree in it had height `n`.
abbrev pub Holds : List Crumb → ℕ → Type 0
Holds [] n = Unit
Holds (in_left k p h r ∷ up) n =
    IsAvl r
    × (n ≤ get_height r + 1)
    × (get_height r ≤ n + 1)
    × Holds up (suc (max n (get_height r)))
Holds (in_right l k p h ∷ up) n =
    IsAvl l
    × (n ≤ get_height l + 1)
    × (get_height l ≤ n + 1)
    × Holds up (suc (max (get_height l) n))

Returns-bind :
    (P Q : Tree → Type 0) (m : Option Tree) (f : Tree → Option Tree)
    → Returns P m
    → ((t : Tree) → P t → Returns Q (f t))
    → Returns Q (m >>= f)
Returns-bind P Q none f h k = absurd h
Returns-bind P Q (some t) f h k = k t h

pub Returns-mono :
    (P Q : Tree → Type 0) (m : Option Tree) → Returns P m → ((t : Tree) → P t → Q t) → Returns Q m
Returns-mono P Q none h k = h
Returns-mono P Q (some t) h k = k t h

abbrev pub Rebuilt : List Crumb → List Entry → Tree → Type 0
Rebuilt up es t = IsAvl t × (entries t ≡ fill up es)

-- After a change of height by one, walking up to the root rebalances the whole tree.
pub rebalance-IsAvl :
    (t : Tree) (up : List Crumb) (n : ℕ)
    → IsAvl t
    → Holds up n
    → get_height t ≤ n + 1
    → n ≤ get_height t + 1
    → Returns (Rebuilt up (entries t)) (rebalance t up)
unfolding rebalance
rebalance-IsAvl t [] n at hs h1 h2 = (at, refl)
rebalance-IsAvl t (in_left k p h r ∷ up) n at (ar, hl, hr, hs) h1 h2 =
    Returns-bind (Balanced t r (entries t ++ ((k, p) ∷ entries r))) _ (balance (node t k p h r)) _
      (balance-Balanced k p h t r at ar (omega arith) (omega arith))
      λ t' (at', e, b).
        subst (λ es. Returns (λ u. IsAvl u × (entries u ≡ fill up es)) (rebalance t' up)) e
          (rebalance-IsAvl t' up (suc (max n (get_height r))) at' hs (omega arith) (omega arith))
rebalance-IsAvl t (in_right l k p h ∷ up) n at (al, hl, hr, hs) h1 h2 =
    Returns-bind (Balanced l t (entries l ++ ((k, p) ∷ entries t))) _ (balance (node l k p h t)) _
      (balance-Balanced k p h l t al at (omega arith) (omega arith))
      λ t' (at', e, b).
        subst (λ es. Returns (λ u. IsAvl u × (entries u ≡ fill up es)) (rebalance t' up)) e
          (rebalance-IsAvl t' up (suc (max (get_height l) n)) at' hs (omega arith) (omega arith))
