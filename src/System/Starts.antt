-- ===== src/System/Starts.antt =====
-- `pthipth_init` of src/pthipth_init.c makes a state that keeps the invariant of the library.
use pthipth.Prelude.{
  ℕ, ◌≡◌, ◌≢◌, refl, sym, ap, subst, ◌∙◌, true, false, Bool-cases, inl, inr, Option, none, some, [],
  ◌==◌, arith, ==_iff, ℤ, pos,
}
use pthipth.Avl
use pthipth.Avl.{Tree}
use pthipth.Avl.Order.{entries, find, has_key}
use pthipth.Avl.Insert.{Inserted}
use pthipth.Ready
use pthipth.Ready.{Ready, buckets_count}
use pthipth.World.{World, Tcb, ready, running, defunct, same_state, set_tcb}
use pthipth.World.Invariant.{Consistent}
use pthipth.World.Valid.{Valid}
use pthipth.Yield.Upkeep.{Upkept}
use pthipth.Threads.{
  create, create_cloned, priority_of, Globals, cloned, main_tcb, new_tcb, idle_task, register,
  add_main_tcb, init_idle, init,
}
use pthipth.System.Creates.{find-put, find-put_other}
use pthipth.System.Blank.{blank, inserted, register-inserted}

module _ (main idle : ℕ) (tm ti : Tcb) (r1 r2 : Tree) (h : main ≢ 0) (i : idle ≢ 0)
    (ne : main ≢ idle) (sm : tm.state ≡ running) (si : ti.state ≡ ready) (pm : tm.priority ≡ 30)
    (pi : ti.priority ≡ 31) (im : Inserted tm.tid main Avl.leaf r1)
    (ii : Inserted ti.tid idle r1 r2) (apart : tm.tid ≢ ti.tid) (off : ti.aging_factor ≡ 0) where
  abbrev started : World
  started = inserted idle ti r2 (inserted main tm r1 (record blank { current = main }))

  started-Consistent : Consistent started
  unfolding Ready.insert
  started-Consistent = record {
    blocked_lem = λ n. ground arith;
    sleeping_lem = λ n. ground arith;
    bucket_lem = λ n p. ground arith;
    queued_lem = λ n. ground arith;
    blocked_Distinct = tt;
    sleeping_Distinct = tt;
    bucket_Distinct = λ p. ground arith;
    shown = λ p h e. ground arith;
    null_lem = ground arith;
    idle_shown = ground arith;
  }

  started-Valid : Valid idle started
  started-Valid = record {
    consistent = started-Consistent;
    priority_lem = λ n. ground arith;
    below_idle = λ n h e. ground arith;
    outside_idle = λ n h e. ground arith;
  }

  main-found : find (started.tcb main).tid (entries r2) ≡ main
  main-found =
      let at : (started.tcb main).tid ≡ tm.tid = ground arith in
      ap (λ k. find k (entries r2)) at
      ∙ ap (find tm.tid) ii.1
      ∙ find-put_other tm.tid ti.tid idle (entries r1) apart
      ∙ ap (find tm.tid) im.1
      ∙ find-put tm.tid main [] refl

  idle-found : find (started.tcb idle).tid (entries r2) ≡ idle
  idle-found =
      let at : (started.tcb idle).tid ≡ ti.tid = ground arith in
      let no : has_key ti.tid (entries r1) ≡ false = ap (has_key ti.tid) im.1 ∙ (ground arith) in
      ap (λ k. find k (entries r2)) at
      ∙ ap (find ti.tid) ii.1
      ∙ find-put ti.tid idle (entries r1) no

  started-known :
      (n : ℕ)
      → same_state (started.tcb n).state defunct ≡ false
      → find (started.tcb n).tid (entries r2) ≡ n
  started-known n a = elim (Bool-cases (n == idle)) [
    | inl e ↦
        subst (λ n. find (started.tcb n).tid (entries r2) ≡ n) (sym ((==_iff n idle).0 e))
          idle-found
    | inr e ↦ elim (Bool-cases (n == main)) [
      | inl f ↦
          subst (λ n. find (started.tcb n).tid (entries r2) ≡ n) (sym ((==_iff n main).0 f))
            main-found
      | inr f ↦ ground arith
    ]
  ]

  started-Upkept : Upkept idle main started
  started-Upkept = (
    record {
      valid = started-Valid;
      files = record {
        avl_lem = ii.0;
        sorted_lem = ii.2;
        filed_lem = λ n h. cc;
        distinct_lem = tt;
      };
      known_lem = started-known;
      dead_lem = λ n h. cc;
      idle_lem = ground arith;
    },
    λ m e. ground arith,
  )

-- `pthipth_init` returns 0 and has set its two flags.
abbrev pub Started : (idle main : ℕ) → Option (World × Globals × ℤ) → Type 0
Started idle main none = ⊥
Started idle main (some (w, g, z)) =
    Upkept idle main w
    × ((w.tcb main).state ≡ running)
    × (g.is_init ≡ true)
    × (g.is_idle ≡ true)
    × (z ≡ pos 0)

module _ (default_stack idle_function main idle gettid now idle_now tid : ℕ) (h : main ≢ 0)
    (i : idle ≢ 0) (ne : main ≢ idle) (apart : gettid ≢ tid) where
  abbrev tm : Tcb
  tm = main_tcb gettid now

  abbrev ti : Tcb
  ti = new_tcb default_stack false tid idle_now none (idle_task idle_function)

  create-idle :
      (g : Globals) (w w' : World)
      → g.is_init ≡ true
      → g.is_idle ≡ false
      → register idle (set_tcb idle ti w) ≡ some w'
      → init_idle default_stack idle_function g true idle idle_now (cloned tid) w
        ≡ some (w', record g { is_idle = true }, pos 0)
  unfolding init_idle create create_cloned
  create-idle g w w' a b e = let ri : (idle == 0) ≡ false = ground arith in rw (a, b, ri, e) refl

  init-some :
      (w w' : World)
      → register main (set_tcb main tm (record blank { current = main })) ≡ some w
      → register idle (set_tcb idle ti w) ≡ some w'
      → init default_stack idle_function
          (record { is_init = false; is_idle = false })
          true
          main
          idle
          gettid
          now
          idle_now
          (cloned tid)
          blank
        ≡ some (w', record { is_init = true; is_idle = true }, pos 0)
  unfolding init add_main_tcb
  init-some w w' e f =
      let rm : (main == 0) ≡ false = ground arith in
      rw (rm, e) (create-idle (record { is_init = true; is_idle = false }) w w' refl refl f)

  ti-priority : ti.priority ≡ 31
  unfolding new_tcb priority_of
  ti-priority = refl

  -- `pthipth_init` on the state before the first call, where `calloc` gives two addresses, `mmap` and
  -- `clone` succeed, and the new thread has another id than the caller, returns 0 and sets its flags; the
  -- state keeps the invariant of the library, and the caller runs.
  pub init-Started : Started idle main (
      init default_stack idle_function
        (record { is_init = false; is_idle = false })
        true
        main
        idle
        gettid
        now
        idle_now
        (cloned tid)
        blank)
  unfolding main_tcb new_tcb
  init-Started =
      let (r1, i1, e1) =
        register-inserted main tm (record blank { current = main }) (omega arith) tt tt in
      let w1 = inserted main tm r1 (record blank { current = main }) in
      let (r2, i2, e2) = register-inserted idle ti w1 (omega (arith, ti-priority)) i1.0 i1.2 in
      let w2 = inserted idle ti r2 w1 in
      subst (Started idle main) (sym (init-some w1 w2 e1 e2)) (
        started-Upkept main idle tm ti r1 r2 h i ne refl refl refl ti-priority i1 i2 apart refl,
        (ground arith),
        refl,
        refl,
        refl,
      )
