-- ===== src/System/Creates.antt =====
-- `pthipth_create` of src/pthipth_create.c keeps the invariant of the library.
use pthipth.Prelude.{
  ℕ, ◌≡◌, ◌≢◌, refl, sym, ap, subst, ◌∙◌, true, false, Bool-cases, inl, inr, Option, none, some,
  List, [], ◌∷◌, ◌==◌, arith, has, Distinct, ==_iff, ℤ,
}
use pthipth.Avl.Order.{Entry, entries, find, put, has_key}
use pthipth.World.{World, Tcb, ready, defunct, same_state}
use pthipth.Yield.Upkeep.{Upkept}
use pthipth.Threads.{Attr, Task, cloned, new_tcb, create}
use pthipth.Threads.Create.{Registered, Created, create-Registered}

pub find-put : (k p : ℕ) (es : List Entry) → has_key k es ≡ false → find k (put k p es) ≡ p
find-put k p [] h = ground arith
find-put k p (e ∷ es) h = ground (arith, find-put k p es)

pub find-put_other : (j k p : ℕ) (es : List Entry) → j ≢ k → find j (put k p es) ≡ find j es
find-put_other j k p [] h = ground arith
find-put_other j k p (e ∷ es) h = ground (arith, find-put_other j k p es h)

pub find_absent : (k : ℕ) (es : List Entry) → has_key k es ≡ false → find k es ≡ 0
find_absent k [] h = refl
find_absent k (e ∷ es) h = ground (arith, find_absent k es)

-- The control block and the id are new: neither is in use, and the idle thread has another one.
abbrev pub New : (idle n tid : ℕ) → World → Type 0
New idle n tid w =
    (n ≢ 0)
    × (n ≢ idle)
    × ((w.tcb n).state ≡ defunct)
    × ((w.tcb n).cur_priority ≡ none)
    × (has n w.defunct_state ≡ false)
    × (has_key tid (entries w.avl_root) ≡ false)

module _ (idle node n : ℕ) (t : Tcb) (w w' : World) (u : Upkept idle node w)
    (new : New idle n t.tid w) (r : Registered idle n t w w') where
  other : (m : ℕ) → (m == n) ≡ false → w'.tcb m ≡ w.tcb m
  other m e = r.2 m (ground arith)

  filed_other :
      (m : ℕ)
      → (m == n) ≡ false
      → m ≢ 0
      → find (w.tcb m).tid (entries w.avl_root) ≡ m
      → find (w'.tcb m).tid (entries w'.avl_root) ≡ m
  filed_other m e h at =
      let apart : (w.tcb m).tid ≢ t.tid = λ q. h (
        sym at
        ∙ ap (λ k. find k (entries w.avl_root)) q
        ∙ find_absent t.tid (entries w.avl_root) new.5) in
      ap (λ t. find t.tid (entries w'.avl_root)) (other m e)
      ∙ ap (find (w.tcb m).tid) r.3.1
      ∙ find-put_other (w.tcb m).tid t.tid n (entries w.avl_root) apart
      ∙ at

  filed_own : find (w'.tcb n).tid (entries w'.avl_root) ≡ n
  filed_own =
      ap (λ k. find k (entries w'.avl_root)) r.4
      ∙ ap (find t.tid) r.3.1
      ∙ find-put t.tid n (entries w.avl_root) new.5

  -- A thread of the queue of the detached ones is another one.
  queued_other :
      (m : ℕ) → has m w'.defunct_state ≡ true → (has m w.defunct_state ≡ true) × ((m == n) ≡ false)
  queued_other m h =
      let old : has m w.defunct_state ≡ true = subst (λ ds. has m ds ≡ true) r.5 h in
      (
        old,
        elim (Bool-cases (m == n)) [
          | inl e ↦
              let k = ap (λ m. has m w.defunct_state) ((==_iff m n).0 e) in let no = new.4 in cc
          | inr e ↦ e
        ],
      )

  real : (m : ℕ) → same_state (w.tcb m).state defunct ≡ false → m ≢ 0
  real m h z =
      let k = ap (λ m. same_state (w.tcb m).state defunct) z in
      let d = ap (λ s. same_state s defunct) u.0.valid.consistent.null_lem in cc

  registered-Upkept : Upkept idle node w'
  registered-Upkept = (
    record {
      valid = r.0;
      files = record {
        avl_lem = r.3.0;
        sorted_lem = r.3.2;
        filed_lem = λ m h.
            let (old, e) = queued_other m h in
            let (re, at) = u.0.files.filed_lem m old in (re, filed_other m e re at);
        distinct_lem = subst Distinct (sym r.5) u.0.files.distinct_lem;
      };
      known_lem = λ m h. elim (Bool-cases (m == n)) [
        | inl e ↦
            subst (λ m. find (w'.tcb m).tid (entries w'.avl_root) ≡ m) (sym ((==_iff m n).0 e))
              filed_own
        | inr e ↦
            let a : same_state (w.tcb m).state defunct ≡ false =
              sym (ap (λ t. same_state t.state defunct) (other m e)) ∙ h in
            filed_other m e (real m a) (u.0.known_lem m a)
      ];
      dead_lem = λ m h.
          let (old, e) = queued_other m h in
          ap (λ t. same_state t.state defunct) (other m e) ∙ u.0.dead_lem m old;
      idle_lem = ap (λ t. t.aging_factor) (r.2 idle (λ e. new.1 (sym e))) ∙ u.0.idle_lem;
    },
    λ m e. elim (Bool-cases (m == n)) [
      | inl q ↦
          let at : (w'.tcb m).state ≡ ready = ap (λ m. (w'.tcb m).state) ((==_iff m n).0 q) ∙ r.1 in
          cc
      | inr q ↦ u.1 m (sym (ap (λ t. t.state) (other m q)) ∙ e)
    ],
  )

Created-mono :
    (P Q : World → Type 0) (tid : ℕ)
    → ((w : World) → P w → Q w)
    → (o : Option (World × ℤ × ℤ)) → Created P tid o
    → Created Q tid o
Created-mono P Q tid f none r = elim r [ ]
Created-mono P Q tid f (some (w, id, z)) r = (f w r.0, r.1, r.2)

pub create-Upkept :
    (idle node n default_stack now tid : ℕ) (attr : Option Attr) (task : Task) (id : ℤ) (w : World)
    → Upkept idle node w
    → New idle n tid w
    → Created (Upkept idle node) tid (
        create default_stack
          (record { is_init = true; is_idle = true })
          true
          true
          n
          now
          (cloned tid)
          attr
          task
          id
          w)
unfolding new_tcb
create-Upkept idle node n default_stack now tid attr task id w u new =
    let t = new_tcb default_stack true tid now attr task in
    Created-mono (Registered idle n t w) (Upkept idle node) tid
      (λ w' r. registered-Upkept idle node n t w w' u new r) _
      (create-Registered idle n default_stack now tid attr task id w u.0.valid new.0 new.2 new.3
        u.0.files.avl_lem u.0.files.sorted_lem)
