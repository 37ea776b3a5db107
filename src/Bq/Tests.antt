-- ===== src/Bq/Tests.antt =====
-- Runs of the theorems on a bucket queue of src/pthipth_bq.c: the nodes 2 and 3 in the bucket 5, and 1 in
-- the last one.
use pthipth.Prelude.{
  ℕ, ◌+◌, ◌≡◌, ◌≢◌, refl, arith, ◌-◌, ◌≤◌, length, ◌==◌, false, true, none, some, [], ◌∷◌, has,
}
use pthipth.Links.{update}
use pthipth.Ready
use pthipth.Ready.{Ready, buckets_count, put, lowest}
use pthipth.Bq.{Bq, insert, delete, rotate}
use pthipth.Bq.Represents.{Circle, put_elim, Represents, Keyed, Returns}
use pthipth.Bq.Search.{search, display, first_with, nodes_from, start, search-first}
use pthipth.Bq.Insert.{Inserted, insert-Represents}
use pthipth.Bq.Delete.{Deleted, OtherShown, delete-Represents}
use pthipth.Bq.Rotate.{rotate-Represents}
use pthipth.Bq.Stranded.{Stranded, Hidden, delete-Stranded}

abbrev nothing : ℕ → ℕ
nothing p = 0

abbrev three_nodes : Bq
three_nodes = record {
  head = 2;
  table = update (update nothing 31 1) 5 2;
  table_tail = update (update nothing 31 1) 5 3;
  bitmap = put (put (λ p. false) 31 true) 5 true;
  prev = update (update (update nothing 1 1) 2 3) 3 2;
  next = update (update (update nothing 1 1) 2 3) 3 2;
  priority = put (λ p. 5) 1 31;
  cur_priority = put (put (put (λ p. none) 1 (some 31)) 2 (some 5)) 3 (some 5);
}

abbrev buckets : Ready
buckets = record {
  bucket = put (put (λ p. []) 31 (1 ∷ [])) 5 (2 ∷ 3 ∷ []);
  bits = put (put (λ p. false) 31 true) 5 true;
}

buckets-peek : 2 ≡ Ready.peek buckets
unfolding Ready.peek lowest
buckets-peek = refl

three_nodes-Represents : Represents three_nodes buckets
three_nodes-Represents = record {
  circle =
      put_elim (Circle three_nodes) (put (λ p. []) 31 (1 ∷ [])) 5 (2 ∷ 3 ∷ []) (ground arith) λ q e.
        put_elim (λ q xs. (5 == q) ≡ false → Circle three_nodes q xs) (λ p. []) 31 (1 ∷ [])
          (λ e. ground arith) (λ q f e. ground arith) q e;
  distinct = λ p. ground arith;
  member = λ p n h. ground arith;
  bits = refl;
  shown = λ p h e. ground arith;
  head = buckets-peek;
}

three_nodes-Keyed : Keyed three_nodes buckets
three_nodes-Keyed p n h = ground arith

abbrev Real : ℕ → Type 0
Real n = n ≢ 0

four-Real : Real 4
four-Real = ground arith

four_fresh : (q : ℕ) → has 4 (buckets.bucket q) ≡ false
four_fresh q = ground arith

insert-Represents_example : Returns (Inserted three_nodes buckets 4) (insert three_nodes 4)
insert-Represents_example =
    insert-Represents three_nodes buckets 4 three_nodes-Represents three_nodes-Keyed four-Real
      four_fresh (omega arith)

idle_shown : OtherShown buckets 5
unfolding lowest
idle_shown = (31, refl)

delete-Represents_example : Returns (Deleted three_nodes buckets 5 3) (delete three_nodes 3)
delete-Represents_example =
    delete-Represents three_nodes buckets 5 3 three_nodes-Represents refl idle_shown

rotate-Represents_example : Returns (λ b. Represents b (Ready.rotate buckets)) (rotate three_nodes)
rotate-Represents_example = rotate-Represents three_nodes buckets three_nodes-Represents

delete-Stranded_example : Returns (Stranded 5 3) (delete three_nodes 2)
delete-Stranded_example =
    delete-Stranded three_nodes buckets 5 2 3 [] three_nodes-Represents refl idle_shown

-- The node 3 behind a bit that is not set.
abbrev behind : Ready
behind = record { bucket = put (λ p. []) 5 (3 ∷ []); bits = λ p. false }

behind-Hidden : Hidden behind 5
behind-Hidden = ((λ e. cc), refl)

buckets_length : (p : ℕ) → length (buckets.bucket p) ≤ 2
buckets_length p = ground arith

search-first_example :
    (search (λ n. n + 100) 103 three_nodes 2
      ≡ some (
          first_with
            (λ n. n + 100)
            103
            (nodes_from buckets.bucket
              (start (lowest buckets.bits))
              (buckets_count - start (lowest buckets.bits)))))
    × (display three_nodes 2 ≡ some (nodes_from buckets.bucket 0 buckets_count))
search-first_example =
    search-first three_nodes buckets three_nodes-Represents 2 buckets_length (λ n. n + 100) 103
