-- ===== src/Bq/Search.antt =====
-- `pthipth_bq_search` and `pthipth_bq_display` of src/pthipth_bq.c. Their do-while loops run on fuel: `none` is
-- also that such a loop has not ended yet. `tid` is that field of the nodes.
use pthipth.Prelude.{
  ℕ, zero, suc, ◌+◌, ◌-◌, ◌<◌, ◌≤◌, ◌≡◌, ◌≢◌, refl, ap, sym, subst, ◌∙◌, Bool, true, false, Option,
  none, some, List, [], ◌∷◌, ◌++◌, length, arith, ◌==◌, if◌then◌else◌, if_true, if_false, ◌>>=◌,
  has, Distinct,
}
use pthipth.Links.{Chain}
use pthipth.Ready.{Ready, buckets_count, lowest}
use pthipth.Bq.{Bq}
use pthipth.Bq.Represents.{Circle, Represents, HeadView, nothing, at, head-view}

-- The inner loop of the search; the result is NULL where it ends without the node.
unfoldable pub search_circle : (tid : ℕ → ℕ) (t : ℕ) → Bq → (fuel head cur : ℕ) → Option ℕ
search_circle tid t b zero head cur = none
search_circle tid t b (suc k) head cur =
    let rest = search_circle tid t b k head (b.next cur) in
    if cur == 0
    then none
    else if tid cur == t
    then some cur
    else if b.next cur == head
    then some 0
    else rest

unfoldable pub search_from : (tid : ℕ → ℕ) (t : ℕ) → Bq → (fuel i count : ℕ) → Option ℕ
unfolding search_circle
search_from tid t b fuel i zero = some 0
search_from tid t b fuel i (suc k) =
    let rest = search_from tid t b fuel (i + 1) k in
    if b.table i == 0
    then rest
    else search_circle tid t b fuel (b.table i) (b.table i) >>= λ r. if r == 0 then rest else some r

unfoldable pub search : (tid : ℕ → ℕ) (t : ℕ) → Bq → (fuel : ℕ) → Option ℕ
unfolding search_from
search tid t b fuel =
    if b.head == 0
    then search_from tid t b fuel 0 buckets_count
    else b.cur_priority b.head >>= λ p. search_from tid t b fuel p (buckets_count - p)

-- The nodes that the display prints, in their order.
unfoldable pub display_circle : Bq → (fuel head cur : ℕ) → Option (List ℕ)
display_circle b zero head cur = none
display_circle b (suc k) head cur =
    let rest = display_circle b k head (b.next cur) in
    if cur == 0
    then none
    else if b.next cur == head
    then some (cur ∷ [])
    else rest >>= λ ns. some (cur ∷ ns)

unfoldable pub display_from : Bq → (fuel i count : ℕ) → Option (List ℕ)
unfolding display_circle
display_from b fuel i zero = some []
display_from b fuel i (suc k) =
    let rest = display_from b fuel (i + 1) k in
    if b.table i == 0
    then rest
    else do ns ← display_circle b fuel (b.table i) (b.table i); ms ← rest; some (ns ++ ms)

unfoldable pub display : Bq → (fuel : ℕ) → Option (List ℕ)
unfolding display_from
display b fuel = display_from b fuel 0 buckets_count

-- The first node of a list with that thread id, or NULL.
abbrev pub first_with : (tid : ℕ → ℕ) (t : ℕ) → List ℕ → ℕ
first_with tid t [] = 0
first_with tid t (n ∷ ns) = if tid n == t then n else first_with tid t ns

-- The nodes of `count` buckets from `i` on.
abbrev pub nodes_from : (ℕ → List ℕ) → (i count : ℕ) → List ℕ
nodes_from bucket i zero = []
nodes_from bucket i (suc k) = bucket i ++ nodes_from bucket (i + 1) k

-- The bucket at which the search begins.
abbrev pub start : Option ℕ → ℕ
start none = 0
start (some a) = a

first_with-append :
    (tid : ℕ → ℕ) (t : ℕ) (ns ms : List ℕ)
    → has 0 ns ≡ false
    → first_with tid t (ns ++ ms)
      ≡ (if first_with tid t ns == 0 then first_with tid t ms else first_with tid t ns)
first_with-append tid t [] ms h = refl
first_with-append tid t (n ∷ ns) ms h = ground (arith, first_with-append tid t ns ms)

module _ (b : Bq) (head : ℕ) where
  search_circle-first :
      (tid : ℕ → ℕ) (t fuel cur : ℕ) (xs : List ℕ)
      → Chain b.next b.prev cur xs head
      → has 0 (cur ∷ xs) ≡ false
      → has head xs ≡ false
      → length xs < fuel
      → search_circle tid t b fuel head cur ≡ some (first_with tid t (cur ∷ xs))
  unfolding search_circle
  search_circle-first tid t zero cur xs c z h f = absurd (omega arith)
  search_circle-first tid t (suc k) cur [] c z h f = ground arith
  search_circle-first tid t (suc k) cur (y ∷ ys) c z h f =
      ground (arith, search_circle-first tid t k y ys c.2)

  display_circle-nodes :
      (fuel cur : ℕ) (xs : List ℕ)
      → Chain b.next b.prev cur xs head
      → has 0 (cur ∷ xs) ≡ false
      → has head xs ≡ false
      → length xs < fuel
      → display_circle b fuel head cur ≡ some (cur ∷ xs)
  unfolding display_circle
  display_circle-nodes zero cur xs c z h f = absurd (omega arith)
  display_circle-nodes (suc k) cur [] c z h f = ground arith
  display_circle-nodes (suc k) cur (y ∷ ys) c z h f =
      ground (arith, display_circle-nodes k y ys c.2)

some-if {ℓ} :
    {A : Type ℓ} (c : Bool) (x y : A) → some (if c then x else y) ≡ (if c then some x else some y)
some-if true x y = refl
some-if false x y = refl

search-start :
    (tid : ℕ → ℕ) (t : ℕ) (b : Bq) (fuel a : ℕ)
    → b.head ≢ 0
    → b.cur_priority b.head ≡ some a
    → search tid t b fuel ≡ search_from tid t b fuel a (buckets_count - a)
unfolding search
search-start tid t b fuel a h e =
    let head_address : (b.head == 0) ≡ false = ground arith in
    if_false (b.head == 0) _ _ head_address
    ∙ ap (λ o. o >>= λ p. search_from tid t b fuel p (buckets_count - p)) e

search-all :
    (tid : ℕ → ℕ) (t : ℕ) (b : Bq) (fuel : ℕ)
    → b.head ≡ 0
    → search tid t b fuel ≡ search_from tid t b fuel 0 buckets_count
unfolding search
search-all tid t b fuel e =
    let head_null : (b.head == 0) ≡ true = ground arith in if_true (b.head == 0) _ _ head_null

module _ (b : Bq) (r : Ready) (rep : Represents b r) (fuel : ℕ)
    (enough : (p : ℕ) → length (r.bucket p) ≤ fuel) where
  -- One bucket: its list, as the two loops see it.
  search_bucket :
      (tid : ℕ → ℕ) (t i : ℕ) (rest : Option ℕ) (xs : List ℕ)
      → r.bucket i ≡ xs
      → (if b.table i == 0
          then rest
          else search_circle tid t b fuel (b.table i) (b.table i) >>= λ m.
              if m == 0 then rest else some m)
        ≡ (if first_with tid t xs == 0 then rest else some (first_with tid t xs))
  search_bucket tid t i rest [] e = let c = subst (Circle b i) e (rep.circle i) in rw c.0 refl
  search_bucket tid t i rest (x ∷ xs) e =
      let c = subst (Circle b i) e (rep.circle i) in
      let d = subst (λ l. Distinct (0 ∷ l)) e (rep.distinct i) in
      let l = subst (λ l. length l ≤ fuel) e (enough i) in
      let x_address : (x == 0) ≡ false = ground arith in
      rw (c.0, x_address)
        (rw (search_circle-first b x tid t fuel x xs c.2 d.0 d.1.0 (omega arith)) refl)

  display_bucket :
      (i : ℕ) (ms xs : List ℕ)
      → r.bucket i ≡ xs
      → (if b.table i == 0
          then some ms
          else display_circle b fuel (b.table i) (b.table i) >>= λ ns. some (ns ++ ms))
        ≡ some (xs ++ ms)
  display_bucket i ms [] e = let c = subst (Circle b i) e (rep.circle i) in rw c.0 refl
  display_bucket i ms (x ∷ xs) e =
      let c = subst (Circle b i) e (rep.circle i) in
      let d = subst (λ l. Distinct (0 ∷ l)) e (rep.distinct i) in
      let l = subst (λ l. length l ≤ fuel) e (enough i) in
      let x_address : (x == 0) ≡ false = ground arith in
      rw (c.0, x_address) (rw (display_circle-nodes b x fuel x xs c.2 d.0 d.1.0 (omega arith)) refl)

  search_from-first :
      (tid : ℕ → ℕ) (t i k : ℕ)
      → search_from tid t b fuel i k ≡ some (first_with tid t (nodes_from r.bucket i k))
  unfolding search_from
  search_from-first tid t i zero = refl
  search_from-first tid t i (suc k) =
      search_bucket tid t i (search_from tid t b fuel (i + 1) k) (r.bucket i) refl
      ∙ ap
          (λ o.
            if first_with tid t (r.bucket i) == 0 then o else some (first_with tid t (r.bucket i)))
          (search_from-first tid t (i + 1) k)
      ∙ sym (
          ap some (
            first_with-append tid t (r.bucket i) (nodes_from r.bucket (i + 1) k) (rep.distinct i).0)
          ∙ some-if (first_with tid t (r.bucket i) == 0) _ _)

  display_from-nodes : (i k : ℕ) → display_from b fuel i k ≡ some (nodes_from r.bucket i k)
  unfolding display_from
  display_from-nodes i zero = refl
  display_from-nodes i (suc k) =
      rw (display_from-nodes (i + 1) k)
        (display_bucket i (nodes_from r.bucket (i + 1) k) (r.bucket i) refl)

  -- With fuel for the longest bucket, the search ends, with the first node of that thread id in the buckets from
  -- the lowest that is shown on, or with NULL if there is none; the display ends, and prints the nodes of all
  -- buckets.
  pub search-first :
      (tid : ℕ → ℕ) (t : ℕ)
      → (search tid t b fuel
          ≡ some (
              first_with tid t (
                nodes_from r.bucket
                  (start (lowest r.bits))
                  (buckets_count - start (lowest r.bits)))))
        × (display b fuel ≡ some (nodes_from r.bucket 0 buckets_count))
  unfolding display
  search-first tid t = (by_head (head-view b r rep), display_from-nodes 0 buckets_count)
    where
      from : ℕ → Option ℕ
      from a = some (first_with tid t (nodes_from r.bucket a (buckets_count - a)))

      by_head : HeadView b r → search tid t b fuel ≡ from (start (lowest r.bits))
      by_head (nothing e h) =
          search-all tid t b fuel h
          ∙ search_from-first tid t 0 buckets_count
          ∙ ap (λ o. from (start o)) (sym e)
      by_head (at a x xs e lt on f h z) =
          let x_in : has x (r.bucket a) ≡ true = rw f (ground arith) in
          search-start tid t b fuel a (ground arith) (ap b.cur_priority h ∙ rep.member a x x_in)
          ∙ search_from-first tid t a (buckets_count - a)
          ∙ ap (λ o. from (start o)) (sym e)
