-- ===== src/Yield/Sweep.antt =====
-- `__pthipth_check_detach` of src/pthipth_detach.c, which frees the detached threads that the kernel is
-- done with.
use pthipth.Prelude.{
  ℕ, ◌≡◌, refl, sym, ap, subst, ◌∙◌, true, false, Bool-cases, inl, inr, Option, none, some, List,
  [], ◌∷◌, ◌==◌, arith, has, Distinct, erase, ==_iff, erase-Distinct, has-erase,
}
use pthipth.Avl
use pthipth.Avl.{Tree}
use pthipth.Avl.Order.{entries, Sorted, has_key}
use pthipth.Avl.Balance
use pthipth.Avl.Balance.{IsAvl}
use pthipth.Avl.Delete.{Deleted, delete-remove}
use pthipth.World.{World}
use pthipth.World.Moves.{Returns, Returns-mono}
use pthipth.World.Each.{each}
use pthipth.Yield.{free_thread, free_detached, check_detach}
use pthipth.Yield.Swept.{join_goes, join_stays, goes, Filed, has_key-find, Swept, erase-Filed}

-- What a walk makes of the state: the tree and the queue, and nothing else.
abbrev pub SweptWorld : ℕ → List ℕ → World → World → Type 0
SweptWorld node ns w w' =
    (w' ≡ record w { avl_root = w'.avl_root; defunct_state = w'.defunct_state })
    × Swept node w.tcb ns w.avl_root w.defunct_state w'.avl_root w'.defunct_state

-- The tree is balanced and sorted, and has the threads of the queue of the detached ones.
pub record Files (w : World) : Type 0 where
  pub avl_lem : IsAvl w.avl_root
  pub sorted_lem : Sorted (entries w.avl_root)
  pub filed_lem : Filed w.tcb w.defunct_state (entries w.avl_root)
  pub distinct_lem : Distinct w.defunct_state

module _ (node : ℕ) where
  nothing : (w : World) → Files w → SweptWorld node [] w w
  nothing w f = (
    refl,
    record {
      avl_lem = f.avl_lem;
      sorted_lem = f.sorted_lem;
      filed_lem = f.filed_lem;
      distinct_lem = f.distinct_lem;
      queue_lem = λ n. ground arith;
      gone_lem = λ n h i. cc;
      other_lem = λ k a. refl;
      absent_lem = λ k z. z;
    },
  )

  abbrev freed : ℕ → Tree → World → World
  freed n t w = record w { avl_root = t; defunct_state = erase n w.defunct_state }

  pub with_tree :
      (n : ℕ) (w : World) (o : Option Tree)
      → Avl.Balance.Returns (Deleted (w.tcb n).tid w.avl_root) o
      → (t : Tree) × Deleted (w.tcb n).tid w.avl_root t × (o ≡ some t)
  with_tree n w none r = elim r [ ]
  with_tree n w (some t) r = (t, r, refl)

  pub free_thread-some :
      (n : ℕ) (w : World) (t : Tree)
      → Avl.delete (w.tcb n).tid w.avl_root ≡ some t
      → free_thread n w ≡ some (record w { avl_root = t })
  unfolding free_thread
  free_thread-some n w t e = rw (free_thread, e) refl

  free_thread-freed :
      (n : ℕ) (w : World)
      → Files w
      → has n w.defunct_state ≡ true
      → (t : Tree) × Deleted (w.tcb n).tid w.avl_root t
        × (free_thread n (record w { defunct_state = erase n w.defunct_state })
            ≡ some (freed n t w))
  free_thread-freed n w f h =
      let k = (w.tcb n).tid in
      let (real, at) = f.filed_lem n h in
      let there : has_key k (entries w.avl_root) ≡ true =
        has_key-find k (entries w.avl_root) (λ z. real (sym at ∙ z)) in
      let (t, d, e) =
        with_tree n w (Avl.delete k w.avl_root)
          (delete-remove k w.avl_root f.avl_lem f.sorted_lem there) in
      (t, d, free_thread-some n (record w { defunct_state = erase n w.defunct_state }) t e)

  freed-Files :
      (n : ℕ) (t : Tree) (w : World)
      → Files w
      → has n w.defunct_state ≡ true
      → Deleted (w.tcb n).tid w.avl_root t
      → Files (freed n t w)
  freed-Files n t w f h d = record {
    avl_lem = d.0;
    sorted_lem = d.2;
    filed_lem = subst (Filed w.tcb (erase n w.defunct_state)) (sym d.1) (
        erase-Filed node w.tcb n w.defunct_state (entries w.avl_root) f.distinct_lem h f.filed_lem);
    distinct_lem = erase-Distinct n w.defunct_state f.distinct_lem;
  }

  stays-each :
      (n : ℕ) (ns : List ℕ) (w : World)
      → goes node w.tcb n ≡ false
      → each (free_detached node) (n ∷ ns) w ≡ each (free_detached node) ns w
  unfolding each free_detached
  stays-each n ns w g = rw g refl

  goes-each :
      (n : ℕ) (ns : List ℕ) (w w' : World)
      → goes node w.tcb n ≡ true
      → free_thread n (record w { defunct_state = erase n w.defunct_state }) ≡ some w'
      → each (free_detached node) (n ∷ ns) w ≡ each (free_detached node) ns w'
  unfolding each free_detached
  goes-each n ns w w' g e = rw (g, e) refl

  -- The rest of the list stands in the queue without its first thread.
  rest-has :
      (n : ℕ) (ns ds : List ℕ)
      → Distinct (n ∷ ns)
      → Distinct ds
      → ((m : ℕ) → has m (n ∷ ns) ≡ true → has m ds ≡ true)
      → (m : ℕ) → has m ns ≡ true
      → has m (erase n ds) ≡ true
  rest-has n ns ds d e a m h = elim (Bool-cases (m == n)) [
    | inl q ↦
        let k : has m ns ≡ has n ns = ap (λ m. has m ns) ((==_iff m n).0 q) in let no = d.0 in cc
    | inr q ↦ ground (arith, a m, has-erase m n ds e)
  ]

  each-Swept :
      (ns : List ℕ) (w : World)
      → Distinct ns
      → ((m : ℕ) → has m ns ≡ true → has m w.defunct_state ≡ true)
      → Files w
      → Returns (SweptWorld node ns w) (each (free_detached node) ns w)
  unfolding each
  each-Swept [] w d a f = nothing w f
  each-Swept (n ∷ ns) w d a f = elim (Bool-cases (goes node w.tcb n)) [
    | inl g ↦
        let h = a n (ground arith) in
        let (t, del, e) = free_thread-freed n w f h in
        let w1 = freed n t w in
        subst (Returns (SweptWorld node (n ∷ ns) w)) (sym (goes-each n ns w w1 g e)) (
          Returns-mono (SweptWorld node ns w1) (SweptWorld node (n ∷ ns) w)
            (λ w' s. (
              s.0,
              join_goes node w.tcb n ns w.avl_root w.defunct_state w'.avl_root w'.defunct_state t
                  del f.sorted_lem f.distinct_lem g s.1,
            ))
            (each (free_detached node) ns w1)
            (each-Swept ns w1 d.1 (rest-has n ns w.defunct_state d f.distinct_lem a)
              (freed-Files n t w f h del)))
    | inr g ↦ subst (Returns (SweptWorld node (n ∷ ns) w)) (sym (stays-each n ns w g)) (
        Returns-mono (SweptWorld node ns w) (SweptWorld node (n ∷ ns) w)
          (λ w' s. (
            s.0,
            join_stays node w.tcb n ns w.avl_root w.defunct_state w'.avl_root w'.defunct_state g
                s.1,
          ))
          (each (free_detached node) ns w) (each-Swept ns w d.1 (λ m h. a m (ground arith)) f))
  ]

  -- If the tree is balanced and sorted and has every thread of the queue of the detached ones,
  -- `__pthipth_check_detach` does not fault; it takes the threads whose `tid_watch` is 0, but for the
  -- caller, out of that queue and out of the tree, whose other entries stay, and changes nothing else; the
  -- tree is balanced and sorted again and has every thread that is left.
  pub check_detach-Swept :
      (w : World) → Files w → Returns (SweptWorld node w.defunct_state w) (check_detach node w)
  unfolding check_detach
  check_detach-Swept w f = each-Swept w.defunct_state w f.distinct_lem (λ m h. h) f
