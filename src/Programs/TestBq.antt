-- ===== src/Programs/TestBq.antt =====
-- test/test_bq.c: nodes are inserted into the bucket queue, one is searched for, the queue is rotated, and
-- the nodes are deleted in the order of their insertion.
use pthipth.Prelude.{ℕ, Option, some, List, [], ◌∷◌, ◌>>=◌}
use pthipth.Bq.{Bq, insert, delete, rotate, peek}
use pthipth.Bq.Search.{search, display}

-- The loop over `pthipth_bq_insert`, and the one over `pthipth_bq_delete`.
unfoldable pub fill : List ℕ → Bq → Option Bq
fill [] b = some b
fill (n ∷ ns) b = insert b n >>= fill ns

unfoldable pub drain : List ℕ → Bq → Option Bq
drain [] b = some b
drain (n ∷ ns) b = delete b n >>= drain ns

-- Up to the deletions: what is printed, the node of that id, and the head after the rotation.
unfoldable pub main_start :
    (nodes : List ℕ) (tid : ℕ → ℕ) (t fuel : ℕ) → Bq → Option (Bq × List ℕ × ℕ × ℕ)
unfolding fill
main_start nodes tid t fuel b = do
  b ← fill nodes b
  shown ← display b fuel
  found ← search tid t b fuel
  b ← rotate b
  some (b, shown, found, peek b)

-- The deletions and what follows them: what is printed, and the node of that id.
unfoldable pub main_end : (nodes : List ℕ) (tid : ℕ → ℕ) (t fuel : ℕ) → Bq → Option (List ℕ × ℕ)
unfolding drain
main_end nodes tid t fuel b = do
  b ← drain nodes b
  left ← display b fuel
  found ← search tid t b fuel
  some (left, found)
