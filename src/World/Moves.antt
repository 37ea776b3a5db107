-- ===== src/World/Moves.antt =====
-- What `__pthipth_change_to_state` of src/pthipth_utils.c may do to the queues, for the thread that it moves.
pub mod Places
use pthipth.Prelude.{
  ℕ, ◌<◌, ◌≡◌, ◌≢◌, refl, sym, ◌⊎◌, Bool, true, false, Option, none, some, List, [], ◌∷◌, ◌++◌,
  ◌==◌, ◌&&◌, if◌then◌else◌, has, Distinct, arith, has-append, has-erase, erase, erase-Distinct,
  append-Distinct, lt→ltb, Option-cases, Bool-cases, inl, inr, subst, ap, ◌∙◌, ◌>>=◌,
}
use pthipth.Ready
use pthipth.Ready.{Ready, put, buckets_count}
use pthipth.Ready.Shown.{Shown, insert-Shown, delete-Shown, insert-bits, delete-bits}
use pthipth.World.{
  ThreadState, ready, running, blocked, sleeping, defunct, same_state, Tcb, World, is_some, set_tcb,
  bq_insert, bq_remove, bq_delete, leave, enter, set_state, change_to_state,
}
use pthipth.World.Invariant.{Consistent, queued, at_bucket, bq_delete-remove, peek-real}

-- How a queue changes for a thread that goes in or out.
abbrev pub Now : ℕ → Bool → List ℕ → List ℕ → Type 0
Now n b xs ys = ((m : ℕ) → has m ys ≡ (if n == m then b else has m xs)) × Distinct ys

pub Now-erase : (n : ℕ) (xs : List ℕ) → Distinct xs → Now n false xs (erase n xs)
Now-erase n xs d = ((λ m. ground (arith, has-erase m n xs d)), erase-Distinct n xs d)

pub Now-append :
    (n : ℕ) (xs : List ℕ) → has n xs ≡ false → Distinct xs → Now n true xs (xs ++ (n ∷ []))
Now-append n xs h d = ((λ m. ground (arith, has-append m xs (n ∷ []))), append-Distinct n xs h d)

-- After it has gone out, the thread can come in at the tail.
pub appended : (n : ℕ) (xs ys : List ℕ) → Now n false xs ys → Now n true xs (ys ++ (n ∷ []))
appended n xs ys a =
    let out : has n ys ≡ false = ground (arith, a.0 n) in
    ((λ m. ground (arith, a.0 m, has-append m ys (n ∷ []))), append-Distinct n ys out a.1)

pub Now-same : (n : ℕ) (b : Bool) (xs : List ℕ) → has n xs ≡ b → Distinct xs → Now n b xs xs
Now-same n b xs h d = ((λ m. ground arith), d)

-- What a change of state must do to the queues.
pub record Moves (w : World) (n : ℕ) (s : ThreadState) (w' : World) : Type 0 where
  pub cur : Option ℕ
  pub cur_lem : cur ≡ some 31 → ((w.tcb n).cur_priority ≡ some 31) ⊎ ((w.tcb n).priority ≡ 31)
  pub tcb_lem :
      (m : ℕ) → w'.tcb m ≡ put w.tcb n (record (w.tcb n) { state = s; cur_priority = cur }) m
  pub blocked_lem : Now n (same_state s blocked) w.blocked_state w'.blocked_state
  pub sleeping_lem : Now n (same_state s sleeping) w.sleeping_state w'.sleeping_state
  pub bucket_lem :
      (p : ℕ) → Now n (at_bucket cur p) (w.ready_queue.bucket p) (w'.ready_queue.bucket p)
  pub queued_lem : is_some cur ≡ queued s
  pub shown : Shown w'.ready_queue
  pub idle_shown : w'.ready_queue.bits 31 ≡ true

pub Moves-Consistent :
    (w : World) (n : ℕ) (s : ThreadState) (w' : World)
    → n ≢ 0
    → Consistent w
    → Moves w n s w'
    → Consistent w' × ((w'.tcb n).state ≡ s)
Moves-Consistent w n s w' h c v = (
  record {
    blocked_lem = λ m. ground (arith, v.blocked_lem.0 m, v.tcb_lem m, c.blocked_lem m);
    sleeping_lem = λ m. ground (arith, v.sleeping_lem.0 m, v.tcb_lem m, c.sleeping_lem m);
    bucket_lem = λ m p. ground (arith, (v.bucket_lem p).0 m, v.tcb_lem m, c.bucket_lem m p);
    queued_lem = λ m. ground (arith, v.queued_lem, v.tcb_lem m, c.queued_lem m);
    blocked_Distinct = v.blocked_lem.1;
    sleeping_Distinct = v.sleeping_lem.1;
    bucket_Distinct = λ p. (v.bucket_lem p).1;
    shown = v.shown;
    null_lem = ground (arith, v.tcb_lem 0, c.null_lem);
    idle_shown = v.idle_shown;
  },
  ground (arith, v.tcb_lem n),
)

pub queued-blocked : (s : ThreadState) → queued s ≡ true → same_state s blocked ≡ false
queued-blocked ready q = refl
queued-blocked running q = refl
queued-blocked blocked q = sym q
queued-blocked sleeping q = refl
queued-blocked defunct q = refl

pub queued-sleeping : (s : ThreadState) → queued s ≡ true → same_state s sleeping ≡ false
queued-sleeping ready q = refl
queued-sleeping running q = refl
queued-sleeping blocked q = refl
queued-sleeping sleeping q = sym q
queued-sleeping defunct q = refl

abbrev pub Returns : (World → Type 0) → Option World → Type 0
Returns P none = ⊥
Returns P (some w) = P w

pub same_state-eq : (o s : ThreadState) → same_state o s ≡ true → o ≡ s
same_state-eq ready ready e = refl
same_state-eq running running e = refl
same_state-eq blocked blocked e = refl
same_state-eq sleeping sleeping e = refl
same_state-eq defunct defunct e = refl
same_state-eq _ _ e = cc

pub Returns-mono :
    (P Q : World → Type 0)
    → ((w : World) → P w → Q w)
    → (o : Option World) → Returns P o
    → Returns Q o
Returns-mono P Q f none r = elim r [ ]
Returns-mono P Q f (some w) r = f w r
