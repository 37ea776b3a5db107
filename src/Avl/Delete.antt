-- ===== src/Avl/Delete.antt =====
-- `pthipth_avl_delete` of src/pthipth_avl.c.
use pthipth.Prelude.{
  true, false, append-nil, ℕ, suc, ◌+◌, ◌≤◌, ◌<◌, max, ◌≡◌, refl, sym, ap, subst, ◌∙◌, inl, inr,
  Option, none, some, List, [], ◌∷◌, ◌++◌, arith, compare-cases,
}
use pthipth.Avl.{
  Tree, leaf, node, get_height, Crumb, in_left, in_right, locate, leftmost, rebalance, replace,
  delete_at, detach, delete,
}
use pthipth.Avl.Order.{
  Entry, entries, fill, Above, Below, Sorted, Sorted-split, has_key, has_key-append_lt,
  has_key-append_ge, remove, remove-append_lt, remove-append_ge, Below-mono,
}
use pthipth.Avl.Balance.{IsAvl, Returns, Returns-mono, Holds, Rebuilt, rebalance-IsAvl}

abbrev OnlyLeft : List Crumb → Type 0
OnlyLeft [] = Unit
OnlyLeft (in_left k p h r ∷ up) = OnlyLeft up
OnlyLeft (in_right l k p h ∷ up) = ⊥

fill-cons :
    (e : Entry) (up : List Crumb) (xs : List Entry)
    → OnlyLeft up
    → fill up (e ∷ xs) ≡ e ∷ fill up xs
fill-cons e [] xs o = refl
fill-cons e (in_left k p h r ∷ up) xs o = fill-cons e up (xs ++ ((k, p) ∷ entries r)) o
fill-cons e (in_right l k p h ∷ up) xs o = absurd o

fill-append :
    (inner up : List Crumb) (xs : List Entry) → fill (inner ++ up) xs ≡ fill up (fill inner xs)
fill-append [] up xs = refl
fill-append (in_left k p h r ∷ inner) up xs = fill-append inner up (xs ++ ((k, p) ∷ entries r))
fill-append (in_right l k p h ∷ inner) up xs = fill-append inner up (entries l ++ ((k, p) ∷ xs))

-- The height above the crumbs, when the subtree below them has height `n`.
abbrev top : List Crumb → ℕ → ℕ
top [] n = n
top (in_left k p h r ∷ up) n = top up (suc (max n (get_height r)))
top (in_right l k p h ∷ up) n = top up (suc (max (get_height l) n))

Holds-append :
    (inner up : List Crumb) (n : ℕ) → Holds inner n → Holds up (top inner n) → Holds (inner ++ up) n
Holds-append [] up n hi hu = hu
Holds-append (in_left k p h r ∷ inner) up n (ar, hl, hr, hi) hu =
    (ar, hl, hr, Holds-append inner up (suc (max n (get_height r))) hi hu)
Holds-append (in_right l k p h ∷ inner) up n (al, hl, hr, hi) hu =
    (al, hl, hr, Holds-append inner up (suc (max (get_height l) n)) hi hu)

-- The crumbs to the leftmost node and its fields, seen from the tree.
abbrev Leftmost : Tree → List Crumb → List Crumb × ℕ × ℕ × ℕ × Tree → Type 0
Leftmost t up (up', k, p, h, r) =
    (fill up' ((k, p) ∷ entries r) ≡ fill up (entries t))
    × OnlyLeft up'
    × IsAvl r
    × Holds up' (suc (get_height r))
    × (top up' (suc (get_height r)) ≡ top up (get_height t))

leftmost-Leftmost :
    (l : Tree) (k p h : ℕ) (r : Tree) (up : List Crumb)
    → IsAvl (node l k p h r)
    → OnlyLeft up
    → Holds up h
    → Leftmost (node l k p h r) up (leftmost l k p h r up)
unfolding leftmost
leftmost-Leftmost leaf k p h r up (al, ar, (e, (hl, hr))) o hs =
    let f : h ≡ suc (get_height r) = omega arith in
    (refl, o, ar, subst (Holds up) f hs, ap (top up) (sym f))
leftmost-Leftmost (node ll lk lp lh lr) k p h r up (al, ar, (e, (hl, hr))) o hs =
    let (f, o', ar', hs', t) =
      leftmost-Leftmost ll lk lp lh lr (in_left k p h r ∷ up) al o
        (ar, hl, hr, subst (Holds up) e hs) in
    (f, o', ar', hs', t ∙ ap (top up) (sym e))

replace-Rebuilt :
    (l rl : Tree) (rk rp rh : ℕ) (rr : Tree) (up : List Crumb)
    → IsAvl l
    → IsAvl (node rl rk rp rh rr)
    → get_height l ≤ rh + 1
    → rh ≤ get_height l + 1
    → Holds up (suc (max (get_height l) rh))
    → Returns
        (Rebuilt up (entries l ++ entries (node rl rk rp rh rr)))
        (replace l rl rk rp rh rr up)
unfolding replace
replace-Rebuilt l rl rk rp rh rr up al ar hl hr hs =
    let (inner, k, p, h, r) = leftmost rl rk rp rh rr [] in
    let (f, o, ar', hs', t) = leftmost-Leftmost rl rk rp rh rr [] ar tt tt in
    let rest : Holds (in_right l k p h ∷ up) rh = (al, hr, hl, hs) in
    let above : Holds (inner ++ (in_right l k p h ∷ up)) (suc (get_height r)) =
      Holds-append inner (in_right l k p h ∷ up) (suc (get_height r)) hs'
        (subst (Holds (in_right l k p h ∷ up)) (sym t) rest) in
    Returns-mono (Rebuilt (inner ++ (in_right l k p h ∷ up)) (entries r))
      (Rebuilt up (entries l ++ entries (node rl rk rp rh rr)))
      (rebalance r (inner ++ (in_right l k p h ∷ up)))
      (rebalance-IsAvl r (inner ++ (in_right l k p h ∷ up)) (suc (get_height r)) ar' above
        (omega arith) (omega arith))
      λ t' (a, e). (
        a,
        e
            ∙ fill-append inner (in_right l k p h ∷ up) (entries r)
            ∙ ap (λ es. fill up (entries l ++ es)) (sym (fill-cons (k, p) inner (entries r) o) ∙ f),
      )

-- Where the node stands, and what is left of the entries without it.
abbrev Located : ℕ → Tree → List Crumb → Option (Tree × List Crumb) → Type 0
Located k t up none = has_key k (entries t) ≡ false
Located k t up (some (leaf, up')) = ⊥
Located k t up (some (node l j p h r, up')) =
    IsAvl (node l j p h r)
    × Holds up' h
    × (fill up' (entries l ++ entries r) ≡ fill up (remove k (entries t)))

module _ (k : ℕ) where
  Located-left :
      (l : Tree) (j q h : ℕ) (r : Tree) (up : List Crumb) (o : Option (Tree × List Crumb))
      → k < j
      → Above j (entries r)
      → Located k l (in_left j q h r ∷ up) o
      → Located k (node l j q h r) up o
  Located-left l j q h r up none lt a d =
      has_key-append_lt k (entries l) (j, q) (entries r) lt a ∙ d
  Located-left l j q h r up (some (leaf, up')) lt a d = d
  Located-left l j q h r up (some (node _ _ _ _ _, up')) lt a (av, hs, e) =
      (av, hs, rw (remove-append_lt k (entries l) (j, q) (entries r) lt a) e)

  Located-right :
      (l : Tree) (j q h : ℕ) (r : Tree) (up : List Crumb) (o : Option (Tree × List Crumb))
      → j < k
      → Below j (entries l)
      → Located k r (in_right l j q h ∷ up) o
      → Located k (node l j q h r) up o
  Located-right l j q h r up none lt b d =
      has_key-append_ge k (entries l) ((j, q) ∷ entries r) (Below-mono j k (entries l) lt b)
      ∙ (ground arith)
  Located-right l j q h r up (some (leaf, up')) lt b d = d
  Located-right l j q h r up (some (node _ _ _ _ _, up')) lt b (av, hs, e) = (
    av,
    hs,
    e
        ∙ ap (fill up) (
            sym (
              remove-append_ge k (entries l) ((j, q) ∷ entries r) (Below-mono j k (entries l) lt b)
              ∙ ap (λ es. entries l ++ es) (ground arith))),
  )

  Located-here :
      (l : Tree) (q h : ℕ) (r : Tree) (up : List Crumb)
      → Below k (entries l)
      → IsAvl (node l k q h r)
      → Holds up h
      → Located k (node l k q h r) up (some (node l k q h r, up))
  Located-here l q h r up b a hs = (
    a,
    hs,
    ap (fill up) (
        sym (
          remove-append_ge k (entries l) ((k, q) ∷ entries r) b
          ∙ ap (λ es. entries l ++ es) (ground arith))),
  )

  locate-Located :
      (t : Tree) (up : List Crumb)
      → IsAvl t
      → Sorted (entries t)
      → Holds up (get_height t)
      → Located k t up (locate k t up)
  unfolding locate
  locate-Located leaf up a s hs = refl
  locate-Located (node l j q h r) up (al, ar, (e, (hl, hr))) s hs =
      let (bl, sl, ab, sr) = Sorted-split (entries l) (j, q) (entries r) s in
      elim (compare-cases k j) [
        | inl (lt, c) ↦
            rw (c, Located)
              (Located-left l j q h r up _ lt ab
                (locate-Located l (in_left j q h r ∷ up) al sl (ar, hl, hr, subst (Holds up) e hs)))
        | inr (inl (gt, c)) ↦
            rw (c, Located)
              (Located-right l j q h r up _ gt bl (
                locate-Located r (in_right l j q h ∷ up) ar sr (al, hr, hl, subst (Holds up) e hs)))
        | inr (inr (eq, c)) ↦
            rw (c, Located, ← eq) (Located-here l q h r up (rw eq bl) (al, ar, (e, (hl, hr))) hs)
      ]

delete_at-Rebuilt :
    (l : Tree) (k p h : ℕ) (r : Tree) (up : List Crumb)
    → IsAvl (node l k p h r)
    → Holds up h
    → Returns (Rebuilt up (entries l ++ entries r)) (delete_at (node l k p h r) up)
unfolding delete_at
delete_at-Rebuilt leaf k p h r up (al, ar, (e, lv)) hs =
    rebalance-IsAvl r up h ar hs (omega arith) (omega arith)
delete_at-Rebuilt (node a j q hl b) k p h leaf up (al, ar, (e, lv)) hs =
    rw append-nil (rebalance-IsAvl (node a j q hl b) up h al hs (omega arith) (omega arith))
delete_at-Rebuilt (node a j q hl b) k p h (node rl rk rp rh rr) up (al, ar, (e, lv)) hs =
    replace-Rebuilt (node a j q hl b) rl rk rp rh rr up al ar lv.0 lv.1 (subst (Holds up) e hs)

Above-remove : (j k : ℕ) (es : List Entry) → Above j es → Above j (remove k es)
Above-remove j k [] a = tt
Above-remove j k (e ∷ es) a = ground (arith, Above-remove j k es a.1)

remove-Sorted : (k : ℕ) (es : List Entry) → Sorted es → Sorted (remove k es)
remove-Sorted k [] s = tt
remove-Sorted k (e ∷ es) s = ground (arith, remove-Sorted k es s.1, Above-remove e.0 k es s.0)

abbrev pub Deleted : ℕ → Tree → Tree → Type 0
Deleted k t t' = IsAvl t' × (entries t' ≡ remove k (entries t)) × Sorted (entries t')

detach-Deleted :
    (k : ℕ) (t : Tree) (o : Option (Tree × List Crumb))
    → Sorted (entries t)
    → has_key k (entries t) ≡ true
    → Located k t [] o
    → Returns (Deleted k t) (detach o)
unfolding detach
detach-Deleted k t none s there d = cc
detach-Deleted k t (some (leaf, up)) s there d = absurd d
detach-Deleted k t (some (node l j p h r, up)) s there (a, hs, e) =
    Returns-mono (Rebuilt up (entries l ++ entries r)) (Deleted k t) (delete_at (node l j p h r) up)
      (delete_at-Rebuilt l j p h r up a hs)
      λ t' (a', e'). (a', e' ∙ e, subst Sorted (sym (e' ∙ e)) (remove-Sorted k (entries t) s))

-- Deleting a node that is in a balanced tree sorted by id faults nowhere, and gives a balanced tree
-- sorted by id, with the same entries but that one.
pub delete-remove :
    (k : ℕ) (t : Tree)
    → IsAvl t
    → Sorted (entries t)
    → has_key k (entries t) ≡ true
    → Returns (Deleted k t) (delete k t)
unfolding delete
delete-remove k t a s there =
    detach-Deleted k t (locate k t []) s there (locate-Located k t [] a s tt)
