-- ===== src/Avl.antt =====
-- src/pthipth_avl.c: the AVL tree of thread control blocks, keyed by thread id.
-- A node is its place in the tree: `left` and `right` are the subtrees, and the chain of `parent`
-- pointers above a node is the list of crumbs that leads to it, innermost first. `none` is a
-- dereference of NULL. A height is the cached field of the node, as in the code.
pub mod Order
pub mod Balance
pub mod Insert
pub mod Delete
mod Tests
use Prim.Native.Nat.{compare, Ordering}
use pthipth.Prelude.{
  ℕ, suc, ◌+◌, max, Bool, true, false, Option, none, some, List, [], ◌∷◌, ◌++◌, ltb, if◌then◌else◌,
  ◌>>=◌,
}

-- A node has its thread id, the address of its control block and its cached height.
pub data Tree : Type 0 where
  leaf : Tree
  node : (left : Tree) (tid ptr height : ℕ) (right : Tree) → Tree

abbrev pub get_height : Tree → ℕ
get_height leaf = 0
get_height (node l k p h r) = h

unfoldable pub update_height : Tree → Tree
update_height leaf = leaf
update_height (node l k p h r) = node l k p (1 + max (get_height l) (get_height r)) r

unfoldable pub right_rotate : Tree → Option Tree
unfolding update_height
right_rotate leaf = none
right_rotate (node leaf k p h r) = none
right_rotate (node (node a xk xp xh b) yk yp yh c) =
    some (update_height (node a xk xp xh (update_height (node b yk yp yh c))))

unfoldable pub left_rotate : Tree → Option Tree
unfolding update_height
left_rotate leaf = none
left_rotate (node l k p h leaf) = none
left_rotate (node a xk xp xh (node b yk yp yh c)) =
    some (update_height (node (update_height (node a xk xp xh b)) yk yp yh c))

-- `getBalance(node) < 0` and `getBalance(node) > 0`
unfoldable pub leans_right : Tree → Bool
leans_right leaf = false
leans_right (node l k p h r) = ltb (get_height l) (get_height r)

unfoldable pub leans_left : Tree → Bool
leans_left leaf = false
leans_left (node l k p h r) = ltb (get_height r) (get_height l)

unfoldable pub fix_left : Tree → ℕ → ℕ → ℕ → Tree → Option Tree
unfolding left_rotate right_rotate leans_right
fix_left l k p h r =
    if leans_right l
    then (do l' ← left_rotate l; right_rotate (node l' k p h r))
    else right_rotate (node l k p h r)

unfoldable pub fix_right : Tree → ℕ → ℕ → ℕ → Tree → Option Tree
unfolding left_rotate right_rotate leans_left
fix_right l k p h r =
    if leans_left r
    then (do r' ← right_rotate r; left_rotate (node l k p h r'))
    else left_rotate (node l k p h r)

-- `balance > 1` is `height left > height right + 1`.
unfoldable pub balance_node : Tree → ℕ → ℕ → ℕ → Tree → Option Tree
unfolding fix_left fix_right
balance_node l k p h r =
    if ltb (get_height r + 1) (get_height l)
    then fix_left l k p h r
    else if ltb (get_height l + 1) (get_height r)
    then fix_right l k p h r
    else some (node l k p h r)

unfoldable pub balance : Tree → Option Tree
unfolding balance_node
balance leaf = some leaf
balance (node l k p h r) = balance_node l k p (1 + max (get_height l) (get_height r)) r

-- A parent on the way up: which child is below it, its own fields, and its other child.
pub data Crumb : Type 0 where
  in_left : (tid ptr height : ℕ) (right : Tree) → Crumb
  in_right : (left : Tree) (tid ptr height : ℕ) → Crumb

-- `while (parent) { parent = balance(parent); … parent = parent->parent; }`
unfoldable pub rebalance : Tree → List Crumb → Option Tree
unfolding balance
rebalance t [] = some t
rebalance t (in_left k p h r ∷ up) = balance (node t k p h r) >>= λ t'. rebalance t' up
rebalance t (in_right l k p h ∷ up) = balance (node l k p h t) >>= λ t'. rebalance t' up

-- The walk down to the place of a new id; `none` means that the id is there already.
unfoldable pub descend : ℕ → Tree → List Crumb → Option (List Crumb)
descend tid leaf up = some up
descend tid (node l k p h r) up = elim (compare tid k) [
  | Ordering.lt ↦ descend tid l (in_left k p h r ∷ up)
  | Ordering.gt ↦ descend tid r (in_right l k p h ∷ up)
  | Ordering.eq ↦ none
]

-- The new node goes to the place found, as a leaf of height 1.
unfoldable pub attach : ℕ → ℕ → Tree → Option (List Crumb) → Option Tree
unfolding rebalance
attach tid ptr t none = some t
attach tid ptr t (some up) = rebalance (node leaf tid ptr 1 leaf) up

-- An empty tree takes the node as its root (`pthipth_avl_init`), which is the walk of no step.
unfoldable pub insert : ℕ → ℕ → Tree → Option Tree
unfolding attach descend
insert tid ptr t = attach tid ptr t (descend tid t [])

-- The place of the node with a given id, as its `parent`, `left` and `right` give it.
unfoldable pub locate : ℕ → Tree → List Crumb → Option (Tree × List Crumb)
locate tid leaf up = none
locate tid (node l k p h r) up = elim (compare tid k) [
  | Ordering.lt ↦ locate tid l (in_left k p h r ∷ up)
  | Ordering.gt ↦ locate tid r (in_right l k p h ∷ up)
  | Ordering.eq ↦ some (node l k p h r, up)
]

-- `while (succ->left) succ = succ->left;`: the crumbs, then the fields of the last node.
unfoldable pub leftmost : Tree → ℕ → ℕ → ℕ → Tree → List Crumb → List Crumb × ℕ × ℕ × ℕ × Tree
leftmost leaf k p h r up = (up, k, p, h, r)
leftmost (node ll lk lp lh lr) k p h r up = leftmost ll lk lp lh lr (in_left k p h r ∷ up)

-- The successor takes the place of the node, and rebalancing starts at its old parent, or at the
-- successor itself where that parent was the node.
unfoldable pub replace : Tree → Tree → ℕ → ℕ → ℕ → Tree → List Crumb → Option Tree
unfolding leftmost rebalance
replace l rl rk rp rh rr up =
    let (inner, k, p, h, r) = leftmost rl rk rp rh rr [] in
    rebalance r (inner ++ (in_right l k p h ∷ up))

unfoldable pub delete_at : Tree → List Crumb → Option Tree
unfolding replace
delete_at leaf up = some leaf
delete_at (node leaf k p h r) up = rebalance r up
delete_at (node l k p h leaf) up = rebalance l up
delete_at (node l k p h (node rl rk rp rh rr)) up = replace l rl rk rp rh rr up

-- A node outside the tree has null links, so the code takes it for a root that has no children.
unfoldable pub detach : Option (Tree × List Crumb) → Option Tree
unfolding delete_at
detach none = some leaf
detach (some (at, up)) = delete_at at up

unfoldable pub delete : ℕ → Tree → Option Tree
unfolding detach locate
delete tid t = detach (locate tid t [])

-- The address found, or 0 for NULL.
unfoldable pub search_tid : ℕ → Tree → ℕ
search_tid tid leaf = 0
search_tid tid (node l k p h r) = elim (compare tid k) [
  | Ordering.eq ↦ p
  | Ordering.lt ↦ search_tid tid l
  | Ordering.gt ↦ search_tid tid r
]
