-- ===== src/Programs.antt =====
-- The programs of test/, which use one data structure each. Their arrays of nodes are lists of addresses; what
-- they print is the result.
pub mod TestQueue
pub mod TestAvl
pub mod TestBq
pub mod ShowsBq
mod Tests
use pthipth.Prelude.{◌≡◌, Option, some}

-- The program goes on with a value of which `P` holds.
abbrev pub Found {ℓ} : {A : Type ℓ} → (A → Type 0) → Option A → Type ℓ
Found P o = (a : _) × (o ≡ some a) × P a
