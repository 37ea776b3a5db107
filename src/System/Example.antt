-- ===== src/System/Example.antt =====
-- A state of the whole library for the tests: the idle thread 1 is ready, thread 2 runs, thread 3 is blocked,
-- thread 4 sleeps, and thread 5 has ended, was detached, and is free to go.
use pthipth.Prelude.{refl, true, none, [], ◌∷◌, arith}
use pthipth.Avl
use pthipth.World.{World, Tcb, defunct, set_tcb}
use pthipth.World.Valid.{Valid, set_tcb-Valid, rest-Valid}
use pthipth.World.Example.{thread, world, world-Valid}
use pthipth.Yield.Sweep.{Files}
use pthipth.Yield.Files.{KeptUp}
use pthipth.Yield.Upkeep.{Only}

abbrev pub gone : Tcb
gone = record (thread 105 defunct 7 none) { tid_watch = 0; is_detach = true }

abbrev pub whole : World
whole = record (set_tcb 5 gone world) {
  avl_root =
      Avl.node (Avl.node Avl.leaf 101 1 1 Avl.leaf) 102 2 3 (
        Avl.node (Avl.node Avl.leaf 103 3 1 Avl.leaf) 104 4 2 (Avl.node Avl.leaf 105 5 1 Avl.leaf));
  defunct_state = 5 ∷ [];
}

pub whole-Valid : Valid 1 whole
whole-Valid =
    rest-Valid 1 (set_tcb 5 gone world) whole.avl_root whole.defunct_state whole.current
      (set_tcb-Valid 1 world 5 gone world-Valid refl refl (omega arith) (λ i e. ground arith))

pub whole-Files : Files whole
whole-Files = record {
  avl_lem = ground arith;
  sorted_lem = ground arith;
  filed_lem = λ n h. ground arith;
  distinct_lem = (refl, tt);
}

pub whole-KeptUp : KeptUp 1 whole
whole-KeptUp = record {
  valid = whole-Valid;
  files = whole-Files;
  known_lem = λ n h. ground arith;
  dead_lem = λ n h. ground arith;
  idle_lem = refl;
}

pub whole-Only : Only whole 2
whole-Only m e = ground arith
