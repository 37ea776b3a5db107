-- ===== src/Avl/Tests.antt =====
-- Runs of the theorems on a small tree of src/pthipth_avl.c.
use pthipth.Prelude.{refl, arith}
use pthipth.Avl.{Tree, leaf, node, insert, delete}
use pthipth.Avl.Order.{entries, Sorted}
use pthipth.Avl.Balance.{IsAvl, Returns}
use pthipth.Avl.Insert.{Inserted, insert-put}
use pthipth.Avl.Delete.{Deleted, delete-remove}

abbrev two_nodes : Tree
two_nodes = node (node leaf 101 1 1 leaf) 102 2 2 leaf

two_nodes-IsAvl : IsAvl two_nodes
two_nodes-IsAvl = ground arith

two_nodes-Sorted : Sorted (entries two_nodes)
two_nodes-Sorted = ground arith

insert-put_example : Returns (Inserted 100 3 two_nodes) (insert 100 3 two_nodes)
insert-put_example = insert-put 100 3 two_nodes two_nodes-IsAvl two_nodes-Sorted

delete-remove_example : Returns (Deleted 101 two_nodes) (delete 101 two_nodes)
delete-remove_example = delete-remove 101 two_nodes two_nodes-IsAvl two_nodes-Sorted refl
