-- ===== src/System/Frees.antt =====
-- The ends of `pthipth_join` and `pthipth_detach`, which free the thread, keep the invariant of the library.
use pthipth.Prelude.{
  ℕ, ◌≡◌, ◌≢◌, sym, ap, subst, ◌∙◌, true, false, Option, none, some, ◌>>=◌, has, ℤ, pos,
}
use pthipth.Avl
use pthipth.Avl.{Tree}
use pthipth.Avl.Order.{entries, find, has_key}
use pthipth.Avl.Delete.{Deleted, delete-remove}
use pthipth.World.{World, defunct, same_state}
use pthipth.World.Moves.{Returns}
use pthipth.World.Valid.{rest-Valid}
use pthipth.Yield.{free_thread}
use pthipth.Yield.Sweep.{free_thread-some, with_tree}
use pthipth.Yield.Swept.{find-remove_other, has_key-find}
use pthipth.Yield.Upkeep.{Upkept}
use pthipth.Threads.Finish.{join_end, detach_end}
use pthipth.System.Calls.{Leaves, leaves}

-- The thread has ended, is in the tree under its id, and nobody else frees it.
abbrev pub Freeable : ℕ → World → Type 0
Freeable n w =
    (n ≢ 0)
    × (find (w.tcb n).tid (entries w.avl_root) ≡ n)
    × (same_state (w.tcb n).state defunct ≡ true)
    × (has n w.defunct_state ≡ false)

module _ (idle node : ℕ) where
  module _ (n : ℕ) (w : World) (u : Upkept idle node w) (f : Freeable n w) (t : Tree)
      (d : Deleted (w.tcb n).tid w.avl_root t) where
    -- Another thread stays in the tree.
    kept_entry :
        (m : ℕ)
        → m ≢ n
        → find (w.tcb m).tid (entries w.avl_root) ≡ m
        → find (w.tcb m).tid (entries t) ≡ m
    kept_entry m h at =
        let apart : (w.tcb m).tid ≢ (w.tcb n).tid =
          λ e. h (sym at ∙ ap (λ k. find k (entries w.avl_root)) e ∙ f.1) in
        ap (find (w.tcb m).tid) d.1
        ∙ find-remove_other (w.tcb m).tid (w.tcb n).tid (entries w.avl_root) apart
        ∙ at

    freed-Upkept : Upkept idle node (record w { avl_root = t })
    freed-Upkept = (
      record {
        valid = rest-Valid idle w t w.defunct_state w.current u.0.valid;
        files = record {
          avl_lem = d.0;
          sorted_lem = d.2;
          filed_lem = λ m h.
              let ne : m ≢ n =
                λ e. let k = ap (λ m. has m w.defunct_state) e in let no = f.3 in cc in
              let (real, at) = u.0.files.filed_lem m h in (real, kept_entry m ne at);
          distinct_lem = u.0.files.distinct_lem;
        };
        known_lem = λ m h.
            let ne : m ≢ n =
              λ e. let k = ap (λ m. same_state (w.tcb m).state defunct) e in let no = f.2 in cc in
            kept_entry m ne (u.0.known_lem m h);
        dead_lem = u.0.dead_lem;
        idle_lem = u.0.idle_lem;
      },
      u.1,
    )

  free_thread-Upkept :
      (n : ℕ) (w : World)
      → Upkept idle node w
      → Freeable n w
      → Returns (Upkept idle node) (free_thread n w)
  free_thread-Upkept n w u f =
      let k = (w.tcb n).tid in
      let there : has_key k (entries w.avl_root) ≡ true =
        has_key-find k (entries w.avl_root) (λ z. f.0 (sym f.1 ∙ z)) in
      let (t, d, e) =
        with_tree node n w (Avl.delete k w.avl_root)
          (delete-remove k w.avl_root u.0.files.avl_lem u.0.files.sorted_lem there) in
      subst (Returns (Upkept idle node)) (sym (free_thread-some node n w t e))
        (freed-Upkept n w u f t d)

  abbrev pub LeavesStatus : Option (World × Option ℕ × ℤ) → Type 0
  LeavesStatus none = ⊥
  LeavesStatus (some (w, s, z)) = Upkept idle node w

  with_status :
      (s : Option ℕ) (o : Option World)
      → Returns (Upkept idle node) o
      → LeavesStatus (o >>= λ w. some (w, s, pos 0))
  with_status s none r = elim r [ ]
  with_status s (some w) r = r

  pub join_end-Upkept :
      (target : ℕ) (status : Option ℕ) (w : World)
      → Upkept idle node w
      → Freeable target w
      → LeavesStatus (join_end target status w)
  unfolding join_end
  join_end-Upkept target status w u f =
      with_status (elim status [ none ↦ none | some s ↦ some (w.tcb target).return_value ])
        (free_thread target w) (free_thread-Upkept target w u f)

  pub detach_end-Upkept :
      (target : ℕ) (w : World)
      → Upkept idle node w
      → Freeable target w
      → Leaves (Upkept idle node) (detach_end target w)
  unfolding detach_end
  detach_end-Upkept target w u f =
      leaves (Upkept idle node) (λ w. (w, pos 0)) (λ w v. v) (free_thread target w)
        (free_thread-Upkept target w u f)
