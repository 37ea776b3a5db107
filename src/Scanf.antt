-- ===== src/Scanf.antt =====
-- src/pthipth_scanf.c: the loop that polls the terminal. What `select` and `vscanf` answer is a parameter.
use pthipth.Prelude.{
  ℕ, zero, suc, ◌≡◌, refl, Option, none, some, List, [], ◌∷◌, ◌++◌, ◌>>=◌, ℤ, minus_one,
}

-- An answer of `select`: -1, 0, or more; then `vscanf` has a result.
pub data Poll : Type 0 where
  failed nothing : Poll
  input : (ret : ℤ) → Poll

-- How often `pthipth_scanf` has yielded, and its result; `none` if it still polls after these answers.
unfoldable pub scanf : List Poll → Option (ℕ × ℤ)
scanf [] = none
scanf (failed ∷ rest) = some (0, minus_one)
scanf (nothing ∷ rest) = scanf rest >>= λ r. some (suc r.0, r.1)
scanf (input ret ∷ rest) = some (0, ret)

abbrev pub silent : ℕ → List Poll
silent zero = []
silent (suc k) = nothing ∷ silent k

-- It yields as often as there is no input, and then has the result of `vscanf`, or -1 if `select` fails.
pub scanf-yields :
    (k : ℕ) (ret : ℤ) (rest : List Poll)
    → (scanf (silent k ++ (input ret ∷ rest)) ≡ some (k, ret))
      × (scanf (silent k ++ (failed ∷ rest)) ≡ some (k, minus_one))
unfolding scanf
scanf-yields zero ret rest = (refl, refl)
scanf-yields (suc k) ret rest = let (f, g) = scanf-yields k ret rest in (rw f refl, rw g refl)
