-- ===== src/Programs/ShowsBq.antt =====
-- What test/test_bq.c prints and finds before its deletions.
use pthipth.Prelude.{
  ℕ, suc, ◌+◌, ◌-◌, ◌<◌, ◌≤◌, ◌≡◌, refl, sym, ap, subst, ◌∙◌, ◌==◌, false, true, Option, none, some,
  List, [], ◌∷◌, length, length-append, arith, ◌>>=◌, has, has-append, Distinct,
}
use pthipth.Ready
use pthipth.Ready.{Ready, buckets_count, lowest}
use pthipth.Bq.{Bq, insert, rotate, peek}
use pthipth.Bq.Represents.{Represents, Keyed, Returns}
use pthipth.Bq.Insert.{Inserted, insert-Represents}
use pthipth.Bq.Rotate.{rotate-Represents}
use pthipth.Bq.Search.{search, display, first_with, nodes_from, start, search-first}
use pthipth.Programs.{Found}
use pthipth.Programs.TestBq.{fill, main_start}

-- The buckets after nodes of these priorities have been inserted.
abbrev pub inserted_all : (ℕ → ℕ) → List ℕ → Ready → Ready
inserted_all priority [] r = r
inserted_all priority (n ∷ ns) r = inserted_all priority ns (Ready.insert (priority n) n r)

abbrev pub no_nodes : Ready
no_nodes = record { bucket = λ p. []; bits = λ p. false }

length-inserted :
    (p n q : ℕ) (r : Ready) → length ((Ready.insert p n r).bucket q) ≤ suc (length (r.bucket q))
unfolding Ready.insert
length-inserted p n q r = ground (arith, length-append (r.bucket p) (n ∷ []))

inserted_all-length :
    (priority : ℕ → ℕ) (ns : List ℕ) (r : Ready) (q : ℕ)
    → length ((inserted_all priority ns r).bucket q) ≤ length ns + length (r.bucket q)
inserted_all-length priority [] r q = omega arith
inserted_all-length priority (n ∷ ns) r q =
    let rest = inserted_all-length priority ns (Ready.insert (priority n) n r) q in
    let one = length-inserted (priority n) n q r in omega arith

insert-other :
    (p n m q : ℕ) (r : Ready)
    → (m == n) ≡ false
    → has m (r.bucket q) ≡ false
    → has m (r.bucket p) ≡ false
    → has m ((Ready.insert p n r).bucket q) ≡ false
unfolding Ready.insert
insert-other p n m q r h k l = ground (arith, has-append m (r.bucket p) (n ∷ []))

found : (P : Bq → Type 0) (o : Option Bq) → Returns P o → Found P o
found P none r = absurd r
found P (some b) r = (b, refl, r)

abbrev Filled : (ℕ → ℕ) → Ready → Bq → Type 0
Filled priority r b = Represents b r × Keyed b r × (b.priority ≡ priority)

fill-inserts :
    (priority : ℕ → ℕ) (b : Bq) (r : Ready) (ns : List ℕ)
    → Filled priority r b
    → ((n : ℕ) → priority n < buckets_count)
    → Distinct (0 ∷ ns)
    → ((n q : ℕ) → has n ns ≡ true → has n (r.bucket q) ≡ false)
    → Found (Filled priority (inserted_all priority ns r)) (fill ns b)
unfolding fill
fill-inserts priority b r [] f small d fresh = (b, refl, f)
fill-inserts priority b r (n ∷ ns) (rep, keyed, same) small d fresh =
    let at : b.priority n ≡ priority n = ap (λ g. g n) same in
    let (b1, e, i) = found (Inserted b r n) (insert b n) (
      insert-Represents b r n rep keyed (ground arith) (λ q. fresh n q (ground arith))
        (subst (λ p. p < buckets_count) (sym at) (small n))) in
    let f1 : Filled priority (Ready.insert (priority n) n r) b1 =
      subst
        (λ p.
          Represents b1 (Ready.insert p n r)
          × Keyed b1 (Ready.insert p n r)
          × (b1.priority ≡ priority))
        at (i.0, i.1, i.3 ∙ same) in
    let (b2, e2, f2) =
      fill-inserts priority b1 (Ready.insert (priority n) n r) ns f1 small (ground arith, d.1.1)
        (λ m q h.
          insert-other (priority n) n m q r (ground arith) (fresh m q (ground arith))
            (fresh m (priority n) (ground arith))) in
    (b2, ap (λ o. o >>= fill ns) e ∙ e2, f2)

-- The first node of that id, or NULL, from the lowest bucket that is shown on.
abbrev pub node_with : (tid : ℕ → ℕ) (t : ℕ) → Ready → ℕ
node_with tid t r =
    first_with tid t
      (nodes_from r.bucket (start (lowest r.bits)) (buckets_count - start (lowest r.bits)))

-- What is printed, found and rotated, by the buckets that the insertions make.
abbrev pub Shows : (tid : ℕ → ℕ) (t : ℕ) → Ready → Option (Bq × List ℕ × ℕ × ℕ) → Type 0
Shows tid t r none = ⊥
Shows tid t r (some (b, shown, node, head)) =
    Represents b (Ready.rotate r)
    × (shown ≡ nodes_from r.bucket 0 buckets_count)
    × (node ≡ node_with tid t r)
    × (head ≡ Ready.peek (Ready.rotate r))

rotated :
    (b : Bq) (r : Ready) (tid : ℕ → ℕ) (t fuel : ℕ)
    → Represents b r
    → ((p : ℕ) → length (r.bucket p) ≤ fuel)
    → Shows tid t r (do
      shown ← display b fuel
      node ← search tid t b fuel
      b ← rotate b
      some (b, shown, node, peek b))
unfolding peek
rotated b r tid t fuel rep enough =
    let (f, g) = search-first b r rep fuel enough tid t in
    let (b1, e, rep1) = found _ (rotate b) (rotate-Represents b r rep) in
    subst
      (λ o. Shows tid t r (
        o >>= λ shown.
        search tid t b fuel >>= λ node. rotate b >>= λ b'. some (b', shown, node, b'.head)))
      (sym g)
      (subst
        (λ o. Shows tid t r (
          o >>= λ node.
          rotate b >>= λ b'. some (b', nodes_from r.bucket 0 buckets_count, node, b'.head)))
        (sym f)
        (subst
          (λ o. Shows tid t r (
            o >>= λ b'. some (b', nodes_from r.bucket 0 buckets_count, node_with tid t r, b'.head)))
          (sym e) (rep1, refl, refl, rep1.head)))

-- From an empty bucket queue, for different nodes of priorities that the table has, and fuel for their number,
-- the program comes to its deletions: it has printed the nodes of the buckets, in each of them in the order of
-- their insertion, has found the first node of that id, or NULL, from the lowest bucket on, and has the
-- head that the rotation of the lowest bucket demands.
pub main_start-Shows :
    (nodes : List ℕ) (tid : ℕ → ℕ) (t fuel : ℕ) (b : Bq)
    → Represents b no_nodes
    → Distinct (0 ∷ nodes)
    → ((n : ℕ) → b.priority n < buckets_count)
    → length nodes ≤ fuel
    → Shows tid t (inserted_all b.priority nodes no_nodes) (main_start nodes tid t fuel b)
unfolding main_start
main_start-Shows nodes tid t fuel b rep d small f =
    let r = inserted_all b.priority nodes no_nodes in
    let (b1, e, (rep1, keyed, same)) =
      fill-inserts b.priority b no_nodes nodes (rep, (λ p n h. cc), refl) small d (λ n q h. refl) in
    subst
      (λ o. Shows tid t r (
        o >>= λ b'. display b' fuel >>= λ shown.
        search tid t b' fuel >>= λ node. rotate b' >>= λ b''. some (b'', shown, node, peek b'')))
      (sym e)
      (rotated b1 r tid t fuel rep1
        (λ p. let l = inserted_all-length b.priority nodes no_nodes p in omega arith))
