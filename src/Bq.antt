-- ===== src/Bq.antt =====
-- src/pthipth_bq.c: the bucket queue, one circular doubly linked list for each priority, on the
-- fields `prev` and `next` of the nodes. `none` is a fault: a dereference of NULL (the address 0), an
-- index outside the tables, or `__builtin_ctz(0)`.
pub mod Represents
pub mod Insert
pub mod Unlinked
pub mod Delete
pub mod Rotate
pub mod Stranded
pub mod Search
mod Tests
use pthipth.Prelude.{
  ℕ, Bool, true, false, Option, none, some, ◌==◌, ltb, ◌&&◌, ◌||◌, if◌then◌else◌, ◌>>=◌,
}
use pthipth.Links.{update}
use pthipth.Ready.{buckets_count, put, lowest}

-- The globals of the file, and the fields of all nodes that it uses. The map is given by its bits;
-- `cur_priority` is `none` for -1.
pub record Bq : Type 0 where
  pub head : ℕ
  pub table : ℕ → ℕ
  pub table_tail : ℕ → ℕ
  pub bitmap : ℕ → Bool
  pub prev : ℕ → ℕ
  pub next : ℕ → ℕ
  pub priority : ℕ → ℕ
  pub cur_priority : ℕ → Option ℕ

-- `p->next = v` and `p->prev = v`
unfoldable pub set_next : ℕ → ℕ → Bq → Option Bq
set_next p v b = if p == 0 then none else some (record b { next = update b.next p v })

unfoldable pub set_prev : ℕ → ℕ → Bq → Option Bq
set_prev p v b = if p == 0 then none else some (record b { prev = update b.prev p v })

unfoldable pub new_bucket : Bq → ℕ → ℕ → Bq
new_bucket b n p = record b {
  prev = update b.prev n n;
  next = update b.next n n;
  table = update b.table p n;
  table_tail = update b.table_tail p n;
  head = if b.head == 0 || ltb p (b.priority b.head) then n else b.head;
  bitmap = put b.bitmap p true;
}

unfoldable pub append : Bq → ℕ → ℕ → Option Bq
unfolding set_next set_prev
append b n p = do
  b ← set_prev (b.table p) n b
  b ← set_next n (b.table p) b
  b ← set_prev n (b.table_tail p) b
  b ← set_next (b.table_tail p) n b
  some (record b { table_tail = update b.table_tail p n })

unfoldable pub insert_at : Bq → ℕ → ℕ → Option Bq
unfolding new_bucket append
insert_at b n p = if b.table p == 0 then some (new_bucket b n p) else append b n p

unfoldable pub insert : Bq → ℕ → Option Bq
unfolding insert_at
insert b n =
    let p = b.priority n in
    if ltb p buckets_count
    then insert_at (record b { cur_priority = put b.cur_priority n (some p) }) n p
    else none

unfoldable pub rotate : Bq → Option Bq
rotate b =
    let cur = b.head in
    if cur == 0 || cur == b.next cur then some b else elim (b.cur_priority cur) [
      | none ↦ some b
      | some p ↦ some (record b {
        table_tail = update b.table_tail p cur;
        head = b.next cur;
        table = update b.table p (b.next cur);
      })
    ]

unfoldable pub peek : Bq → ℕ
peek b = b.head

unfoldable pub unlink : Bq → ℕ → Option Bq
unfolding set_next set_prev
unlink b n = do b ← set_prev (b.next n) (b.prev n) b; set_next (b.prev n) (b.next n) b

-- The deletion of the first node of a bucket: the bit of the bucket is cleared, and the head is
-- taken from the lowest bucket whose bit is left.
unfoldable pub drop_first : Bq → ℕ → ℕ → Option Bq
drop_first b n p =
    let first = if b.table p == b.next n then 0 else b.next n in
    let bitmap = put b.bitmap p false in
    let table = update b.table p first in
    lowest bitmap >>= λ active. some (record b {
      table = table;
      table_tail = update b.table_tail p (if first == 0 then 0 else b.table_tail p);
      bitmap = bitmap;
      head = table active;
    })

unfoldable pub drop_node : Bq → ℕ → ℕ → Option Bq
unfolding drop_first
drop_node b n p =
    if n == b.table p
    then drop_first b n p
    else if n == b.table_tail p
    then some (record b { table_tail = update b.table_tail p (b.prev (b.table_tail p)) })
    else some b

unfoldable pub forget : Bq → ℕ → Bq
forget b n = record b {
  next = update b.next n 0;
  prev = update b.prev n 0;
  cur_priority = put b.cur_priority n none;
}

unfoldable pub delete_from : Bq → ℕ → Option ℕ → Option Bq
unfolding unlink drop_node forget
delete_from b n none = some b
delete_from b n (some p) = do b ← unlink b n; b ← drop_node b n p; some (forget b n)

unfoldable pub delete : Bq → ℕ → Option Bq
unfolding delete_from
delete b n = if n == 0 || b.head == 0 then some b else delete_from b n (b.cur_priority n)

unfoldable pub reinsert : Bq → ℕ → Option Bq
unfolding delete insert
reinsert b n = do b ← delete b n; insert b n
