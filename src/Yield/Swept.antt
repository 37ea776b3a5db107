-- ===== src/Yield/Swept.antt =====
-- What the walk of `__pthipth_check_detach` of src/pthipth_detach.c leaves of the tree and of the queue.
use pthipth.Prelude.{
  ℕ, ◌≡◌, ◌≢◌, refl, sym, ap, ◌∙◌, Bool, true, false, not, Bool-cases, inl, inr, List, [], ◌∷◌,
  ◌==◌, ◌&&◌, arith, has, Distinct, erase, ==_iff, has-erase,
}
use pthipth.Avl.{Tree}
use pthipth.Avl.Order.{Entry, entries, Sorted, remove, has_key, find, find-Above}
use pthipth.Avl.Balance.{IsAvl}
use pthipth.Avl.Delete.{Deleted}
use pthipth.World.{Tcb}

-- Whether the thread goes: it is not the caller, and the kernel has cleared `tid_watch`.
abbrev pub goes : ℕ → (ℕ → Tcb) → ℕ → Bool
goes node tcb n = not (node == n) && ((tcb n).tid_watch == 0)

-- The threads are in the tree, each under its own id.
abbrev pub Filed : (ℕ → Tcb) → List ℕ → List Entry → Type 0
Filed tcb ds es = (n : ℕ) → has n ds ≡ true → (n ≢ 0) × (find (tcb n).tid es ≡ n)

pub find-remove : (k : ℕ) (es : List Entry) → Sorted es → find k (remove k es) ≡ 0
find-remove k [] s = refl
find-remove k (e ∷ es) s = ground (arith, find-remove k es s.1, find-Above k es)

pub find-remove_other : (j k : ℕ) (es : List Entry) → j ≢ k → find j (remove k es) ≡ find j es
find-remove_other j k [] h = refl
find-remove_other j k (e ∷ es) h = ground (arith, find-remove_other j k es h)

pub has_key-find : (k : ℕ) (es : List Entry) → find k es ≢ 0 → has_key k es ≡ true
has_key-find k [] h = elim (h refl) [ ]
has_key-find k (e ∷ es) h = ground (arith, has_key-find k es)

module _ (node : ℕ) (tcb : ℕ → Tcb) where
  -- The tree `t` and the queue `ds` after a walk over `ns` from the tree and the queue before.
  pub record Swept (ns : List ℕ) (t : Tree) (ds : List ℕ) (t' : Tree) (ds' : List ℕ) : Type 0 where
    pub avl_lem : IsAvl t'
    pub sorted_lem : Sorted (entries t')
    pub filed_lem : Filed tcb ds' (entries t')
    pub distinct_lem : Distinct ds'
    pub queue_lem : (n : ℕ) → has n ds' ≡ (has n ds && not (has n ns && goes node tcb n))
    pub gone_lem :
        (n : ℕ) → has n ns ≡ true → goes node tcb n ≡ true → find (tcb n).tid (entries t') ≡ 0
    pub other_lem :
        (k : ℕ)
        → ((n : ℕ) → has n ns ≡ true → goes node tcb n ≡ true → (tcb n).tid ≢ k)
        → find k (entries t') ≡ find k (entries t)
    pub absent_lem : (k : ℕ) → find k (entries t) ≡ 0 → find k (entries t') ≡ 0

  -- What one turn does to a thread that goes.
  pub erase-Filed :
      (n : ℕ) (ds : List ℕ) (es : List Entry)
      → Distinct ds
      → has n ds ≡ true
      → Filed tcb ds es
      → Filed tcb (erase n ds) (remove (tcb n).tid es)
  erase-Filed n ds es d h f m i =
      let i' : has m ds ≡ true = ground (arith, has-erase m n ds d) in
      let ne : m ≢ n = ground (arith, has-erase m n ds d) in
      let apart : (tcb m).tid ≢ (tcb n).tid =
        λ e. ne (sym (f m i').1 ∙ ap (λ k. find k es) e ∙ (f n h).1) in
      ((f m i').0, find-remove_other (tcb m).tid (tcb n).tid es apart ∙ (f m i').1)

  goes-eq : (m n : ℕ) → (m == n) ≡ true → goes node tcb m ≡ goes node tcb n
  goes-eq m n e = ap (goes node tcb) ((==_iff m n).0 e)

  goes-ne : (m n : ℕ) → goes node tcb m ≡ true → goes node tcb n ≡ false → (m == n) ≡ false
  goes-ne m n g h = elim (Bool-cases (m == n)) [ inl e ↦ let k = goes-eq m n e in cc | inr e ↦ e ]

  module _ (n : ℕ) (ns : List ℕ) (t : Tree) (ds : List ℕ) (t' : Tree) (ds' : List ℕ) where
    -- A walk whose first thread stays.
    pub join_stays : goes node tcb n ≡ false → Swept ns t ds t' ds' → Swept (n ∷ ns) t ds t' ds'
    join_stays g s = record {
      avl_lem = s.avl_lem;
      sorted_lem = s.sorted_lem;
      filed_lem = s.filed_lem;
      distinct_lem = s.distinct_lem;
      queue_lem = λ m. elim (Bool-cases (goes node tcb m)) [
        | inl e ↦ let k = goes-ne m n e g in ground (arith, s.queue_lem m)
        | inr e ↦ ground (arith, s.queue_lem m)
      ];
      gone_lem = λ m h i. let k = goes-ne m n i g in s.gone_lem m (ground arith) i;
      other_lem = λ k a. s.other_lem k (λ m h i. a m (ground arith) i);
      absent_lem = s.absent_lem;
    }

    -- A walk whose first thread goes.
    pub join_goes :
        (r : Tree)
        → Deleted (tcb n).tid t r
        → Sorted (entries t)
        → Distinct ds
        → goes node tcb n ≡ true
        → Swept ns r (erase n ds) t' ds'
        → Swept (n ∷ ns) t ds t' ds'
    join_goes r d o distinct g s =
        let gone : find (tcb n).tid (entries r) ≡ 0 =
          ap (find (tcb n).tid) d.1 ∙ find-remove (tcb n).tid (entries t) o in
        let kept : (k : ℕ) → (tcb n).tid ≢ k → find k (entries r) ≡ find k (entries t) =
          λ k h. ap (find k) d.1 ∙ find-remove_other k (tcb n).tid (entries t) (λ e. h (sym e)) in
        record {
          avl_lem = s.avl_lem;
          sorted_lem = s.sorted_lem;
          filed_lem = s.filed_lem;
          distinct_lem = s.distinct_lem;
          queue_lem = λ m. elim (Bool-cases (m == n)) [
            | inl e ↦
                let k = goes-eq m n e in ground (arith, s.queue_lem m, has-erase m n ds distinct)
            | inr e ↦ ground (arith, s.queue_lem m, has-erase m n ds distinct)
          ];
          gone_lem = λ m h i. elim (Bool-cases (m == n)) [
            | inl e ↦
                let k : find (tcb m).tid (entries r) ≡ 0 =
                  ap (λ m. find (tcb m).tid (entries r)) ((==_iff m n).0 e) ∙ gone in
                s.absent_lem (tcb m).tid k
            | inr e ↦ s.gone_lem m (ground arith) i
          ];
          other_lem =
              λ k a. s.other_lem k (λ m h i. a m (ground arith) i) ∙ kept k (a n (ground arith) g);
          absent_lem = λ k z. s.absent_lem k (elim (Bool-cases ((tcb n).tid == k)) [
            | inl e ↦ ap (λ j. find j (entries r)) (sym ((==_iff (tcb n).tid k).0 e)) ∙ gone
            | inr e ↦ kept k (ground arith) ∙ z
          ]);
        }
