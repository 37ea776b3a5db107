-- ===== src/Queue/Tests.antt =====
-- Runs of the theorems on a queue of src/pthipth_queue.c that holds the nodes 3 and 4.
use pthipth.Prelude.{ℕ, ◌≢◌, refl, arith, [], ◌∷◌}
use pthipth.Links.{update}
use pthipth.Queue.{Queue, add, delete}
use pthipth.Queue.Represents.{Represents, SameLinks, Returns}
use pthipth.Queue.Add.{add-append}
use pthipth.Queue.Delete.{Deleted, delete-erase}

abbrev none_linked : ℕ → ℕ
none_linked p = 0

abbrev two_nodes : Queue
two_nodes = record {
  head = 3;
  tail = 4;
  prev2 = update none_linked 4 3;
  next2 = update none_linked 3 4;
}

two_nodes-Represents : Represents two_nodes (3 ∷ 4 ∷ [])
two_nodes-Represents = record {
  chain = ground arith;
  distinct = ground arith;
  distinct_end = ground arith;
}

abbrev Real : ℕ → Type 0
Real n = n ≢ 0

five-Real : Real 5
five-Real = ground arith

add-append_example :
    Returns
      (λ q. Represents q (3 ∷ 4 ∷ 5 ∷ []) × SameLinks two_nodes q 5 (3 ∷ 4 ∷ []))
      (add two_nodes 5)
add-append_example = add-append two_nodes 5 (3 ∷ 4 ∷ []) two_nodes-Represents five-Real refl

delete-erase_example : Returns (Deleted two_nodes 3 (3 ∷ 4 ∷ [])) (delete two_nodes 3)
delete-erase_example = delete-erase two_nodes 3 (3 ∷ 4 ∷ []) two_nodes-Represents refl
