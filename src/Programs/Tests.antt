-- ===== src/Programs/Tests.antt =====
-- The programs of test/ with nodes at the addresses 1 to 10.
use pthipth.Prelude.{
  ℕ, ◌+◌, ◌-◌, ◌%◌, ◌≡◌, refl, false, ◌>>=◌, Option, none, some, List, [], ◌∷◌, arith,
}
use pthipth.Ready.{lowest}
use pthipth.Bq.{Bq, insert, delete, rotate, peek}
use pthipth.Bq.Search.{search, display}
use pthipth.Ready.{buckets_count}
use pthipth.Bq.Represents.{Represents}
use pthipth.Programs.ShowsBq.{Shows, inserted_all, no_nodes, main_start-Shows}
use pthipth.Ready
use pthipth.Programs.TestBq.{drain, main_start}
use pthipth.Avl.Order.{Entry, find}
use pthipth.Queue.{Queue}
use pthipth.Queue.Represents as QueueView
use pthipth.Programs.TestQueue as TestQueue
use pthipth.Programs.TestQueue.{Nodes, main-prints}
use pthipth.Programs.TestAvl as TestAvl
use pthipth.Programs.TestAvl.{main-finds}

abbrev empty_queue : Queue
empty_queue = record { head = 0; tail = 0; prev2 = λ n. 0; next2 = λ n. 0 }

empty_queue-Represents : QueueView.Represents empty_queue []
empty_queue-Represents = record {
  chain = (refl, refl);
  distinct = (refl, tt);
  distinct_end = (refl, tt);
}

abbrev ten : List ℕ
ten = 1 ∷ 2 ∷ 3 ∷ 4 ∷ 5 ∷ 6 ∷ 7 ∷ 8 ∷ 9 ∷ 10 ∷ []

ten-Nodes : Nodes ten
ten-Nodes =
    (refl, (refl, (refl, (refl, (refl, (refl, (refl, (refl, (refl, (refl, (refl, tt)))))))))))

main-prints_example : TestQueue.main ten 11 empty_queue ≡ some (ten, [])
main-prints_example = main-prints ten 11 empty_queue empty_queue-Represents ten-Nodes (omega arith)

abbrev three : List Entry
three = (1, 501) ∷ (2, 502) ∷ (3, 503) ∷ []

main-finds_example : TestAvl.main three 3 ≡ some ((three, find 3 three), ([], 0))
main-finds_example =
    main-finds three 3 ((omega arith, (omega arith, tt)), ((omega arith, tt), (tt, tt)))

-- The bucket queue of the program: the node `i + 1` has the priority `i % 5 + 1`.
abbrev no_buckets : Bq
no_buckets = record {
  head = 0;
  table = λ p. 0;
  table_tail = λ p. 0;
  bitmap = λ p. false;
  prev = λ n. 0;
  next = λ n. 0;
  priority = λ n. (n - 1) % 5 + 1;
  cur_priority = λ n. none;
}

abbrev shown_of : Option (Bq × List ℕ × ℕ × ℕ) → List ℕ × ℕ × ℕ
shown_of none = ([], 0, 0)
shown_of (some r) = (r.1, r.2, r.3)

start-shows :
    shown_of (main_start ten (λ n. n) 3 3 no_buckets)
    ≡ (1 ∷ 6 ∷ 2 ∷ 7 ∷ 3 ∷ 8 ∷ 4 ∷ 9 ∷ 5 ∷ 10 ∷ [], 3, 6)
unfolding main_start insert search display rotate peek lowest
start-shows = refl

-- The deletion of the node 6 clears the last bit of the map, while other nodes are still in their buckets:
-- `__builtin_ctz(0)`.
end-faults : (main_start ten (λ n. n) 3 3 no_buckets >>= λ r. drain ten r.0) ≡ none
unfolding main_start drain insert delete search display rotate lowest
end-faults = refl

end-before :
    shown_of (
      main_start ten (λ n. n) 3 3 no_buckets >>= λ r.
      drain (1 ∷ 2 ∷ 3 ∷ 4 ∷ 5 ∷ []) r.0 >>= λ b. some (b, [], 0, b.head))
    ≡ ([], 0, 6)
unfolding main_start drain insert delete search display rotate lowest
end-before = refl

no_buckets-Represents : Represents no_buckets no_nodes
unfolding Ready.peek lowest
no_buckets-Represents = record {
  circle = λ p. (refl, refl);
  distinct = λ p. (refl, tt);
  member = λ p n h. ground arith;
  bits = refl;
  shown = λ p h. ground arith;
  head = refl;
}

main_start-Shows_example :
    Shows
      (λ n. n)
      3
      (inserted_all no_buckets.priority ten no_nodes)
      (main_start ten (λ n. n) 3 10 no_buckets)
main_start-Shows_example =
    main_start-Shows ten (λ n. n) 3 10 no_buckets no_buckets-Represents ten-Nodes (λ n. omega arith)
      (omega arith)
