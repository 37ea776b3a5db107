-- ===== src/Store/Tests.antt =====
-- The pointers of the state of the tests.
use pthipth.Prelude.{◌≡◌, refl, false, [], ◌∷◌, ◌==◌, if◌then◌else◌, arith}
use pthipth.Ready
use pthipth.Ready.{put}
use pthipth.World
use pthipth.World.{blocked, ready}
use pthipth.World.Example.{queue}
use pthipth.Bq.{Bq}
use pthipth.Bq.Represents as BqView
use pthipth.Store
use pthipth.Store.{Store, queue_at}
use pthipth.Store.Shows.{Shows}
use pthipth.Store.Refines.{Refines, change_to_state-Refines}
use pthipth.System.Example.{whole, whole-KeptUp}

abbrev buckets : Bq
buckets = record {
  head = 2;
  table = put (put (λ p. 0) 31 1) 5 2;
  table_tail = put (put (λ p. 0) 31 1) 5 2;
  bitmap = queue.bits;
  prev = λ n. if n == 1 then 1 else if n == 2 then 2 else 0;
  next = λ n. if n == 1 then 1 else if n == 2 then 2 else 0;
  priority = λ n. (whole.tcb n).priority;
  cur_priority = λ n. (whole.tcb n).cur_priority;
}

abbrev pointers : Store
pointers = record {
  bq = buckets;
  state = λ n. (whole.tcb n).state;
  prev2 = λ n. 0;
  next2 = λ n. 0;
  blocked_state = record { head = 3; tail = 3 };
  sleeping_state = record { head = 4; tail = 4 };
  defunct_state = record { head = 5; tail = 5 };
}

buckets-Represents : BqView.Represents buckets whole.ready_queue
unfolding Ready.peek Ready.lowest
buckets-Represents = record {
  circle =
      BqView.put_elim (λ p zs. BqView.Circle buckets p zs) (put (λ p. []) 31 (1 ∷ [])) 5 (2 ∷ [])
        (refl, refl, (refl, refl))
        (λ p e.
          BqView.put_elim (λ q zs. (5 == q) ≡ false → BqView.Circle buckets q zs) (λ p. []) 31
            (1 ∷ []) (λ e. (refl, refl, (refl, refl))) (λ q f e. (ground arith, ground arith)) p e);
  distinct = λ p. ground arith;
  member = λ p n h. ground arith;
  bits = refl;
  shown = λ p h e. ground arith;
  head = refl;
}

pointers-Shows : Shows pointers whole
pointers-Shows = record {
  bq_lem = buckets-Represents;
  keyed_lem = λ p n h. ground arith;
  priority_lem = λ n. refl;
  cur_lem = λ n. refl;
  state_lem = λ n. refl;
  blocked_lem = record {
    chain = ground arith;
    distinct = (refl, (refl, tt));
    distinct_end = (refl, (refl, tt));
  };
  sleeping_lem = record {
    chain = ground arith;
    distinct = (refl, (refl, tt));
    distinct_end = (refl, (refl, tt));
  };
  defunct_lem = record {
    chain = ground arith;
    distinct = (refl, (refl, tt));
    distinct_end = (refl, (refl, tt));
  };
}

change_to_state-Refines_example :
    Refines (Store.change_to_state 3 ready pointers) (World.change_to_state 3 ready whole)
change_to_state-Refines_example =
    change_to_state-Refines 1 3 (λ e. ground arith) ready pointers whole pointers-Shows whole-KeptUp
      refl (whole-KeptUp.valid.priority_lem 3)
