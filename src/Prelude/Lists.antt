-- ===== src/Prelude/Lists.antt =====
-- Lists of pointers: membership as a Boolean, deletion, and the predicates on all elements.
use Prim.Native.Nat.{ℕ, suc, ◌+◌}
use mathlib.Core.Path.{◌≡◌, refl}
use mathlib.Core.Bool.{Bool, false, ◌||◌, ◌&&◌, not}
use mathlib.Core.List.{List, [], ◌∷◌, ◌++◌}
use native.Mathlib.Omega.{arith}
use pthipth.Prelude.Tests.{◌==◌, if◌then◌else◌}

module _ {ℓ} {A : Type ℓ} where
  abbrev pub length : List A → ℕ
  length [] = 0
  length (x ∷ xs) = suc (length xs)

  pub length-append : (xs ys : List A) → length (xs ++ ys) ≡ length xs + length ys
  length-append [] ys = omega arith
  length-append (x ∷ xs) ys = omega (arith, length-append xs ys)

abbrev pub All {ℓ κ} : {A : Type ℓ} → (A → Type κ) → List A → Type κ
All P [] = Unit
All P (x ∷ xs) = P x × All P xs

module _ {ℓ κ} {A : Type ℓ} (P : A → Type κ) where
  All-append : (xs ys : List A) → All P xs → All P ys → All P (xs ++ ys)
  All-append [] ys hx hy = hy
  All-append (x ∷ xs) ys hx hy = (hx.0, All-append xs ys hx.1 hy)

  pub All-append_left : (xs ys : List A) → All P (xs ++ ys) → All P xs
  All-append_left [] ys h = tt
  All-append_left (x ∷ xs) ys h = (h.0, All-append_left xs ys h.1)

  pub All-append_right : (xs ys : List A) → All P (xs ++ ys) → All P ys
  All-append_right [] ys h = h
  All-append_right (x ∷ xs) ys h = All-append_right xs ys h.1

-- Whether the pointer `p` stands in the list.
abbrev pub has : ℕ → List ℕ → Bool
has p [] = false
has p (x ∷ xs) = (p == x) || has p xs

-- No pointer stands in the list twice.
abbrev pub Distinct : List ℕ → Type 0
Distinct [] = Unit
Distinct (x ∷ xs) = (has x xs ≡ false) × Distinct xs

-- The list without the first occurrence of `p`.
abbrev pub erase : ℕ → List ℕ → List ℕ
erase p [] = []
erase p (x ∷ xs) = if p == x then xs else x ∷ erase p xs

pub has-append : (p : ℕ) (xs ys : List ℕ) → has p (xs ++ ys) ≡ (has p xs || has p ys)
has-append p [] ys = refl
has-append p (x ∷ xs) ys = ground (arith, has-append p xs ys)

pub has-erase :
    (p q : ℕ) (xs : List ℕ) → Distinct xs → has p (erase q xs) ≡ (has p xs && not (p == q))
has-erase p q [] d = refl
has-erase p q (x ∷ xs) d = ground (arith, has-erase p q xs d.1)

pub erase-Distinct : (q : ℕ) (xs : List ℕ) → Distinct xs → Distinct (erase q xs)
erase-Distinct q [] d = tt
erase-Distinct q (x ∷ xs) d = ground (arith, erase-Distinct q xs, has-erase x q xs)

pub append-Distinct :
    (q : ℕ) (xs : List ℕ) → has q xs ≡ false → Distinct xs → Distinct (xs ++ q ∷ [])
append-Distinct q [] h d = (refl, tt)
append-Distinct q (x ∷ xs) h d = ground (arith, append-Distinct q xs, has-append x xs (q ∷ []))

erase_absent : (q : ℕ) (xs : List ℕ) → has q xs ≡ false → erase q xs ≡ xs
erase_absent q [] h = refl
erase_absent q (x ∷ xs) h = ground (arith, erase_absent q xs)

pub erase_last : (q : ℕ) (xs : List ℕ) → has q xs ≡ false → erase q (xs ++ (q ∷ [])) ≡ xs
erase_last q [] h = ground arith
erase_last q (x ∷ xs) h = ground (arith, erase_last q xs)
