-- ===== src/Queue/Display.antt =====
-- `pthipth_queue_display` of src/pthipth_queue.c. The loop runs on fuel: `none` is that it has not ended.
use pthipth.Prelude.{
  ℕ, zero, suc, ◌<◌, ◌≡◌, refl, false, Option, none, some, List, [], ◌∷◌, length, arith, ◌==◌,
  if◌then◌else◌, if_false, subst, ◌>>=◌, has,
}
use pthipth.Links.{Chain}
use pthipth.Queue.{Queue}
use pthipth.Queue.Represents.{forward, backward, Represents}

-- The nodes that the loop prints, in their order.
unfoldable pub display_from : Queue → (fuel cur : ℕ) → Option (List ℕ)
display_from q zero cur = none
display_from q (suc k) cur =
    let rest = display_from q k (q.next2 cur) in
    if cur == 0 then some [] else rest >>= λ ns. some (cur ∷ ns)

unfoldable pub display : Queue → (fuel : ℕ) → Option (List ℕ)
unfolding display_from
display q fuel = display_from q fuel q.head

display_from-nodes :
    (q : Queue) (fuel u : ℕ) (xs : List ℕ)
    → Chain (forward q) (backward q) u xs 0
    → has 0 xs ≡ false
    → length xs < fuel
    → display_from q fuel (forward q u) ≡ some xs
unfolding display_from
display_from-nodes q zero u xs c z f = absurd (omega arith)
display_from-nodes q (suc k) u [] c z f = rw c.0 refl
display_from-nodes q (suc k) u (x ∷ xs) c z f =
    let x_address : (x == 0) ≡ false = ground arith in
    let next : forward q x ≡ q.next2 x = if_false (x == 0) q.head (q.next2 x) x_address in
    let rest =
      subst (λ n. display_from q k n ≡ some xs) next
        (display_from-nodes q k x xs c.2 (ground arith) (omega arith)) in
    rw (c.0, x_address, rest) refl

-- With more fuel than nodes, the display of a queue ends, and prints its list.
pub display-nodes :
    (q : Queue) (fuel : ℕ) (xs : List ℕ)
    → Represents q xs
    → length xs < fuel
    → display q fuel ≡ some xs
unfolding display
display-nodes q fuel xs rep f = display_from-nodes q fuel 0 xs rep.chain rep.distinct.0 f
