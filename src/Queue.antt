-- ===== src/Queue.antt =====
-- src/pthipth_queue.c: the doubly linked queue of the state lists (blocked, sleeping, defunct), on
-- the fields `prev2` and `next2` of the nodes. `none` is a dereference of NULL, the address 0.
pub mod Represents
pub mod Display
pub mod Add
pub mod Delete
mod Tests
use pthipth.Prelude.{ℕ, Bool, Option, none, some, ◌==◌, ◌&&◌, ◌||◌, if◌then◌else◌, ◌>>=◌}
use pthipth.Links.{update}

-- `pthipth_queue_t`, with the link fields of all nodes.
pub record Queue : Type 0 where
  pub head : ℕ
  pub tail : ℕ
  pub prev2 : ℕ → ℕ
  pub next2 : ℕ → ℕ

-- `p->next2 = v` and `p->prev2 = v`
unfoldable pub set_next2 : ℕ → ℕ → Queue → Option Queue
set_next2 p v q = if p == 0 then none else some (record q { next2 = update q.next2 p v })

unfoldable pub set_prev2 : ℕ → ℕ → Queue → Option Queue
set_prev2 p v q = if p == 0 then none else some (record q { prev2 = update q.prev2 p v })

unfoldable pub init : Queue → ℕ → Option Queue
unfolding set_next2 set_prev2
init q n = do q ← set_prev2 n 0 q; q ← set_next2 n 0 q; some (record q { head = n; tail = n })

unfoldable pub append : Queue → ℕ → Option Queue
unfolding set_next2 set_prev2
append q n = do
  q ← set_next2 n 0 q
  q ← set_prev2 n q.tail q
  q ← set_next2 q.tail n q
  some (record q { tail = n })

unfoldable pub add : Queue → ℕ → Option Queue
unfolding init append
add q n = if q.head == 0 || q.tail == 0 then init q n else append q n

unfoldable pub delete_head : Queue → Option Queue
unfolding set_prev2
delete_head q = let head = q.next2 q.head in set_prev2 head 0 (record q { head = head })

unfoldable pub delete_tail : Queue → Option Queue
unfolding set_next2
delete_tail q = let tail = q.prev2 q.tail in set_next2 tail 0 (record q { tail = tail })

-- The two tests on the links keep a node that is in no queue from doing harm.
unfoldable pub delete_inner : Queue → ℕ → Option Queue
unfolding set_next2 set_prev2
delete_inner q n = do
  q ← if q.prev2 n == 0 then some q else set_next2 (q.prev2 n) (q.next2 n) q
  if q.next2 n == 0 then some q else set_prev2 (q.next2 n) (q.prev2 n) q

unfoldable pub unlink : Queue → ℕ → Option Queue
unfolding delete_head delete_tail delete_inner
unlink q n =
    if q.head == n && q.tail == n
    then some (record q { head = 0; tail = 0 })
    else if q.head == n
    then delete_head q
    else if q.tail == n
    then delete_tail q
    else delete_inner q n

unfoldable pub delete : Queue → ℕ → Option Queue
unfolding unlink set_next2 set_prev2
delete q n =
    if q.head == 0 || q.tail == 0
    then some q
    else (do q ← unlink q n; q ← set_prev2 n 0 q; set_next2 n 0 q)
