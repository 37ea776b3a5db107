-- ===== src/System/Ends.antt =====
-- src/pthipth_join.c, src/pthipth_detach.c and src/pthipth_exit.c, up to where they yield or wait, keep
-- the invariant of the library.
use pthipth.Prelude.{
  ℕ, ◌≡◌, ◌≢◌, refl, sym, ap, subst, ◌∙◌, ◌⊎◌, true, false, not, Bool-cases, inl, inr, some, [],
  ◌∷◌, ◌++◌, ◌==◌, ◌&&◌, ◌||◌, ◌>>=◌, arith, has, ==_iff, has-append, append-Distinct,
}
use pthipth.Avl.{search_tid}
use pthipth.Avl.Order.{entries, find}
use pthipth.World.{ready, blocked, defunct, same_state, World, set_tcb, change_to_state}
use pthipth.World.Moves.{Returns, Returns-mono}
use pthipth.World.Valid.{
  Valid, Changed, Changed-self, Changed-other, change_to_state-Valid, rest-Valid,
}
use pthipth.World.Each.{Returns-bind}
use pthipth.World.Frame.{Rest, Rest-self, Where, Returns-Where, change_to_state-Rest}
use pthipth.Yield.Files.{carry, SameFiles, Rest-SameFiles}
use pthipth.Yield.Upkeep.{Upkept}
use pthipth.Threads.{Globals}
use pthipth.Threads.Finish.{
  yields_for, refuses, join_start, detach_start, wake_joiner, finish, queue_detached, exit_start,
}
use pthipth.System.Kept.{move-Upkept, write-Upkept}
use pthipth.System.Calls.{Leaves, leaves, Calls, caller-real}

module _ (idle node : ℕ) where
  pub join_start-Upkept :
      (g : Globals) (target_thread : ℕ) (w : World)
      → Calls idle node w
      → Upkept idle node w
      → Leaves (Upkept idle node) (join_start g node target_thread w)
  unfolding join_start
  join_start-Upkept g target_thread w c u =
      let n = search_tid target_thread w.avl_root in
      elim (Bool-cases (not g.is_init || refuses n node w)) [
        | inl e ↦ rw e u
        | inr e ↦ elim (Bool-cases (same_state (w.tcb n).state defunct)) [
          | inl d ↦ rw (e, d) u
          | inr d ↦
              let t = record (w.tcb n) { blocked_for_join = node } in
              let w1 = set_tcb n t w in
              let u1 =
                write-Upkept idle node w n t refl refl refl refl (u.0.valid.priority_lem n)
                  (u.0.valid.below_idle n) u in
              let alive : same_state (w1.tcb node).state defunct ≡ false = ground (arith, c.0) in
              rw (e, d)
                (leaves (Upkept idle node) (λ w. (w, yields_for n)) (λ w v. v) _
                  (move-Upkept idle node w1 node blocked (caller-real idle node w u c) alive
                    (refl, refl) (u1.0.valid.outside_idle node c.1) u1))
        ]
      ]

  pub detach_start-Upkept :
      (target_thread : ℕ) (w : World)
      → Upkept idle node w
      → Upkept idle node (detach_start target_thread w).0
  unfolding detach_start
  detach_start-Upkept target_thread w u =
      let n = search_tid target_thread w.avl_root in
      elim (Bool-cases ((n == 0) || (w.tcb n).is_detach || not ((w.tcb n).blocked_for_join == 0))) [
        | inl e ↦ rw e u
        | inr e ↦ rw e (
            write-Upkept idle node w n (record (w.tcb n) { is_detach = true }) refl refl refl refl
              (u.0.valid.priority_lem n) (u.0.valid.below_idle n) u)
      ]

  -- The caller has its own entry in the tree, and is not among the detached threads.
  abbrev Entered : World → Type 0
  Entered w =
      (node ≢ 0)
      × (find (w.tcb node).tid (entries w.avl_root) ≡ node)
      × (has node w.defunct_state ≡ false)

  alive-Entered :
      (w : World)
      → node ≢ 0
      → same_state (w.tcb node).state defunct ≡ false
      → Upkept idle node w
      → Entered w
  alive-Entered w h a u = (
    h,
    u.0.known_lem node a,
    elim (Bool-cases (has node w.defunct_state)) [
      | inl e ↦ let d = u.0.dead_lem node e in cc
      | inr e ↦ e
    ],
  )

  same-Entered : (w w' : World) → SameFiles w w' → Entered w → Entered w'
  same-Entered w w' s e = (
    e.0,
    subst (λ t. find (w'.tcb node).tid (entries t) ≡ node) (sym s.0)
        (ap (λ k. find k (entries w.avl_root)) (s.2 node) ∙ e.1),
    subst (λ ds. has node ds ≡ false) (sym s.1) e.2,
  )

  -- The thread that joins the caller has not ended.
  abbrev pub JoinerLives : World → Type 0
  JoinerLives w =
      let j = (w.tcb node).blocked_for_join in (j ≢ 0) → same_state (w.tcb j).state defunct ≡ false

  wake_joiner-Upkept :
      (w : World)
      → JoinerLives w
      → Upkept idle node w
      → Returns (Upkept idle node) (wake_joiner node w)
  unfolding wake_joiner
  wake_joiner-Upkept w l u = elim (Bool-cases ((w.tcb node).blocked_for_join == 0)) [
    | inl e ↦ rw e u
    | inr e ↦
        let h : (w.tcb node).blocked_for_join ≢ 0 = ground arith in
        rw e (
          move-Upkept idle node w (w.tcb node).blocked_for_join ready h (l h) (refl, refl)
            (u.0.valid.priority_lem (w.tcb node).blocked_for_join) u)
  ]

  wake_joiner-Rest : (w : World) → Where (Rest w) (wake_joiner node w)
  unfolding wake_joiner
  wake_joiner-Rest w = elim (Bool-cases ((w.tcb node).blocked_for_join == 0)) [
    | inl e ↦ rw e (Rest-self w)
    | inr e ↦ rw e (change_to_state-Rest (w.tcb node).blocked_for_join ready w)
  ]

  -- The caller has ended.
  abbrev Ended : World → Type 0
  Ended w = Upkept idle node w × Entered w × (same_state (w.tcb node).state defunct ≡ true)

  ended :
      (w w' : World)
      → Upkept idle node w
      → Entered w
      → (Valid idle w' × Changed w node defunct w') × Rest w w'
      → Ended w'
  ended w w' (k, o) e ((v, c), r) =
      let dead : same_state (w'.tcb node).state defunct ≡ true =
        ap (λ t. same_state t.state defunct) (Changed-self w node defunct w' c) in
      let f = Rest-SameFiles w w' r in
      (
        (
          carry idle w w' v f
              (λ m h. elim (Bool-cases (m == node)) [
                | inl q ↦ ap (λ n. same_state (w'.tcb n).state defunct) ((==_iff m node).0 q) ∙ dead
                | inr q ↦
                    ap (λ t. same_state t.state defunct)
                      (Changed-other w node defunct w' c m (ground arith))
                    ∙ h
              ])
              k,
          λ m h. elim (Bool-cases (m == node)) [
            | inl q ↦ (==_iff m node).0 q
            | inr q ↦
                o m
                  (sym (ap (λ t. t.state) (Changed-other w node defunct w' c m (ground arith))) ∙ h)
          ],
        ),
        same-Entered w w' f e,
        dead,
      )

  finish-Ended :
      (return_val : ℕ) (w : World)
      → node ≢ idle
      → Upkept idle node w
      → Entered w
      → Returns Ended (finish node return_val w)
  unfolding finish
  finish-Ended return_val w i u e =
      let t = record (w.tcb node) { return_value = return_val } in
      let w1 = set_tcb node t w in
      let u1 =
        write-Upkept idle node w node t refl refl refl refl (u.0.valid.priority_lem node)
          (u.0.valid.below_idle node) u in
      let e1 = same-Entered w w1 (refl, refl, (λ m. ground arith), λ m. ground arith) e in
      Returns-mono (λ w'. (Valid idle w' × Changed w1 node defunct w') × Rest w1 w') Ended
        (λ w' r. ended w1 w' u1 e1 r) (change_to_state node defunct w1)
        (Returns-Where (λ w'. Valid idle w' × Changed w1 node defunct w') (Rest w1)
          (change_to_state node defunct w1)
          (change_to_state-Valid idle w1 node e.0 u1.0.valid defunct
            (u1.0.valid.outside_idle node i))
          (change_to_state-Rest node defunct w1))

  queued-Upkept : (w : World) → Ended w → Upkept idle node (queue_detached node w)
  unfolding queue_detached
  queued-Upkept w ((k, o), e, d) =
      elim (Bool-cases ((w.tcb node).is_detach && same_state (w.tcb node).state defunct)) [
        | inl a ↦
            let at : (m : ℕ)
                → has m (w.defunct_state ++ (node ∷ [])) ≡ true
                → (has m w.defunct_state ≡ true) ⊎ (m ≡ node) =
              λ m h. elim (Bool-cases (m == node)) [
                | inl q ↦ inr ((==_iff m node).0 q)
                | inr q ↦ inl (ground (arith, has-append m w.defunct_state (node ∷ [])))
              ] in
            rw a (
              record {
                valid =
                    rest-Valid idle w w.avl_root (w.defunct_state ++ (node ∷ [])) w.current k.valid;
                files = record {
                  avl_lem = k.files.avl_lem;
                  sorted_lem = k.files.sorted_lem;
                  filed_lem = λ m h. elim (at m h) [
                    | inl i ↦ k.files.filed_lem m i
                    | inr i ↦
                        subst (λ m. (m ≢ 0) × (find (w.tcb m).tid (entries w.avl_root) ≡ m)) (sym i)
                          (e.0, e.1)
                  ];
                  distinct_lem = append-Distinct node w.defunct_state e.2 k.files.distinct_lem;
                };
                known_lem = k.known_lem;
                dead_lem = λ m h. elim (at m h) [
                  | inl i ↦ k.dead_lem m i
                  | inr i ↦ ap (λ m. same_state (w.tcb m).state defunct) i ∙ d
                ];
                idle_lem = k.idle_lem;
              },
              o,
            )
        | inr a ↦ rw a (k, o)
      ]

  abbrev Woken : World → Type 0
  Woken w = Upkept idle node w × Entered w

  pub exit_start-Upkept :
      (return_val : ℕ) (w : World)
      → Calls idle node w
      → JoinerLives w
      → Upkept idle node w
      → Returns (Upkept idle node) (exit_start node return_val w)
  unfolding exit_start
  exit_start-Upkept return_val w c l u =
      let e =
        alive-Entered w (caller-real idle node w u c) (ap (λ s. same_state s defunct) c.0) u in
      Returns-bind Woken (Upkept idle node)
        (λ w. finish node return_val w >>= λ w. some (queue_detached node w))
        (λ w1 k.
          Returns-bind Ended (Upkept idle node) (λ w. some (queue_detached node w))
            (λ w2 r. queued-Upkept w2 r) (finish node return_val w1)
            (finish-Ended return_val w1 c.1 k.0 k.1))
        (wake_joiner node w)
        (Returns-mono (λ w'. Upkept idle node w' × Rest w w') Woken
          (λ w' r. (r.0, same-Entered w w' (Rest-SameFiles w w' r.1) e)) (wake_joiner node w)
          (Returns-Where (Upkept idle node) (Rest w) (wake_joiner node w) (wake_joiner-Upkept w l u)
            (wake_joiner-Rest w)))
