-- ===== src/Avl/Order.antt =====
-- The tree of src/pthipth_avl.c as the list of its entries, sorted by thread id.
use Prim.Native.Nat.{compare, Ordering}
use pthipth.Prelude.{
  ℕ, ◌<◌, ◌≡◌, refl, Bool, true, false, List, [], ◌∷◌, ◌++◌, arith, All, All-append_left,
  All-append_right,
}
use pthipth.Avl.{Tree, leaf, node, Crumb, in_left, in_right, search_tid}

abbrev pub Entry : Type 0
Entry = ℕ × ℕ

-- In order, as `traversal_inorder` prints them.
abbrev pub entries : Tree → List Entry
entries leaf = []
entries (node l k p h r) = entries l ++ ((k, p) ∷ entries r)

-- The entries of the whole tree, given those of the subtree below the crumbs.
abbrev pub fill : List Crumb → List Entry → List Entry
fill [] xs = xs
fill (in_left k p h r ∷ up) xs = fill up (xs ++ ((k, p) ∷ entries r))
fill (in_right l k p h ∷ up) xs = fill up (entries l ++ ((k, p) ∷ xs))

abbrev pub Above : ℕ → List Entry → Type 0
Above k = All (λ e. k < e.0)

abbrev pub Below : ℕ → List Entry → Type 0
Below k = All (λ e. e.0 < k)

abbrev pub Sorted : List Entry → Type 0
Sorted [] = Unit
Sorted (e ∷ es) = Above e.0 es × Sorted es

-- What a dictionary from ids to addresses promises, on sorted lists.
abbrev pub find : ℕ → List Entry → ℕ
find k [] = 0
find k ((j, p) ∷ es) = elim (compare k j) [ Ordering.eq ↦ p | _ ↦ find k es ]

abbrev pub put : ℕ → ℕ → List Entry → List Entry
put k p [] = (k, p) ∷ []
put k p ((j, q) ∷ es) = elim (compare k j) [
  | Ordering.lt ↦ (k, p) ∷ (j, q) ∷ es
  | Ordering.eq ↦ (j, q) ∷ es
  | Ordering.gt ↦ (j, q) ∷ put k p es
]

abbrev pub remove : ℕ → List Entry → List Entry
remove k [] = []
remove k ((j, q) ∷ es) = elim (compare k j) [ Ordering.eq ↦ es | _ ↦ (j, q) ∷ remove k es ]

abbrev pub has_key : ℕ → List Entry → Bool
has_key k [] = false
has_key k ((j, q) ∷ es) = elim (compare k j) [ Ordering.eq ↦ true | _ ↦ has_key k es ]

pub Sorted-split :
    (xs : List Entry) (e : Entry) (ys : List Entry)
    → Sorted (xs ++ (e ∷ ys))
    → Below e.0 xs × Sorted xs × Above e.0 ys × Sorted ys
Sorted-split [] e ys s = (tt, tt, s.0, s.1)
Sorted-split (x ∷ xs) e ys s =
    let rest = Sorted-split xs e ys s.1 in
    (
      ((All-append_right _ xs (e ∷ ys) s.0).0, rest.0),
      (All-append_left _ xs (e ∷ ys) s.0, rest.1),
      rest.2,
      rest.3,
    )

pub Above-mono : (j k : ℕ) (es : List Entry) → j < k → Above k es → Above j es
Above-mono j k [] h a = tt
Above-mono j k (e ∷ es) h a = (omega arith, Above-mono j k es h a.1)

pub Below-mono : (j k : ℕ) (es : List Entry) → j < k → Below j es → Below k es
Below-mono j k [] h a = tt
Below-mono j k (e ∷ es) h a = (omega arith, Below-mono j k es h a.1)

pub find-Above : (k : ℕ) (es : List Entry) → Above k es → find k es ≡ 0
find-Above k [] a = refl
find-Above k (e ∷ es) a = ground (arith, find-Above k es)

find-append_lt :
    (k : ℕ) (xs : List Entry) (e : Entry) (ys : List Entry)
    → k < e.0
    → Above e.0 ys
    → find k (xs ++ (e ∷ ys)) ≡ find k xs
find-append_lt k [] e ys h a = ground (arith, find-Above k ys (Above-mono k e.0 ys h a))
find-append_lt k (x ∷ xs) e ys h a = ground (arith, find-append_lt k xs e ys)

find-append_ge : (k : ℕ) (xs ys : List Entry) → Below k xs → find k (xs ++ ys) ≡ find k ys
find-append_ge k [] ys b = refl
find-append_ge k (x ∷ xs) ys b = ground (arith, find-append_ge k xs ys)

-- On a tree sorted by id, the search returns the address that the sorted list has for the id, and
-- NULL where the list has none.
pub search_tid-find : (k : ℕ) (t : Tree) → Sorted (entries t) → search_tid k t ≡ find k (entries t)
unfolding search_tid
search_tid-find k leaf s = refl
search_tid-find k (node l j p h r) s =
    let (below, sl, above, sr) = Sorted-split (entries l) (j, p) (entries r) s in
    ground (
      arith,
      search_tid-find k l sl,
      search_tid-find k r sr,
      find-append_lt k (entries l) (j, p) (entries r),
      find-append_ge k (entries l) ((j, p) ∷ entries r),
      Below-mono j k (entries l),
    )

-- Inserting before an entry with a greater id only concerns the entries ahead of it.
pub put-append_lt :
    (k p : ℕ) (xs : List Entry) (e : Entry) (ys : List Entry)
    → k < e.0
    → put k p (xs ++ (e ∷ ys)) ≡ put k p xs ++ (e ∷ ys)
put-append_lt k p [] e ys h = ground arith
put-append_lt k p (x ∷ xs) e ys h = ground (arith, put-append_lt k p xs e ys h)

pub put-append_ge :
    (k p : ℕ) (xs ys : List Entry) → Below k xs → put k p (xs ++ ys) ≡ xs ++ put k p ys
put-append_ge k p [] ys b = refl
put-append_ge k p (x ∷ xs) ys b = ground (arith, put-append_ge k p xs ys b.1)

pub remove-append_ge :
    (k : ℕ) (xs ys : List Entry) → Below k xs → remove k (xs ++ ys) ≡ xs ++ remove k ys
remove-append_ge k [] ys b = refl
remove-append_ge k (x ∷ xs) ys b = ground (arith, remove-append_ge k xs ys b.1)

remove-Above : (k : ℕ) (es : List Entry) → Above k es → remove k es ≡ es
remove-Above k [] a = refl
remove-Above k (e ∷ es) a = ground (arith, remove-Above k es a.1)

pub remove-append_lt :
    (k : ℕ) (xs : List Entry) (e : Entry) (ys : List Entry)
    → k < e.0
    → Above e.0 ys
    → remove k (xs ++ (e ∷ ys)) ≡ remove k xs ++ (e ∷ ys)
remove-append_lt k [] e ys h a = ground (arith, remove-Above k ys (Above-mono k e.0 ys h a))
remove-append_lt k (x ∷ xs) e ys h a = ground (arith, remove-append_lt k xs e ys)

has_key-Above : (k : ℕ) (es : List Entry) → Above k es → has_key k es ≡ false
has_key-Above k [] a = refl
has_key-Above k (e ∷ es) a = ground (arith, has_key-Above k es a.1)

pub has_key-append_lt :
    (k : ℕ) (xs : List Entry) (e : Entry) (ys : List Entry)
    → k < e.0
    → Above e.0 ys
    → has_key k (xs ++ (e ∷ ys)) ≡ has_key k xs
has_key-append_lt k [] e ys h a = ground (arith, has_key-Above k ys (Above-mono k e.0 ys h a))
has_key-append_lt k (x ∷ xs) e ys h a = ground (arith, has_key-append_lt k xs e ys)

pub has_key-append_ge :
    (k : ℕ) (xs ys : List Entry) → Below k xs → has_key k (xs ++ ys) ≡ has_key k ys
has_key-append_ge k [] ys b = refl
has_key-append_ge k (x ∷ xs) ys b = ground (arith, has_key-append_ge k xs ys b.1)
