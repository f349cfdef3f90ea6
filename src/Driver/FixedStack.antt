-- ===== src/Driver/FixedStack.antt =====
-- driver/util/fixed_stack.h: an array with the index of its top, an int64_t that starts at -1; the
-- model counts from the first free index, `next`, which is `top + 1`. The lock makes a call one step.
mod Tests
use cleancache_rdma.Prelude.{
  ℕ, suc, ◌+◌, ◌-◌, ◌*◌, ◌^◌, ◌≤◌, ◌<◌, ◌≡◌, refl, Bool, true, false, not, ◌&&◌, Option, none, some,
  leb, ◌==◌, if◌then◌else◌, Array, update, Bool-cases, inl, inr, arith,
}
use cleancache_rdma.Prelude.Int.{ℤ, pos, negsuc}

pub record FixedStack : Type 0 where
  pub nodes : Array ℕ
  pub num_elems : ℕ
  pub next : ℕ

-- `top >= num_elems`
unfoldable pub is_full : FixedStack → Bool
is_full s = leb (s.num_elems + 1) s.next

unfoldable pub is_empty : FixedStack → Bool
is_empty s = s.next == 0

unfoldable pub stack_push : FixedStack → ℕ → ℤ × FixedStack
stack_push s item =
    if not (is_full s)
    then (pos 0, record s { nodes = update s.nodes s.next item; next = s.next + 1 })
    else (negsuc 0, s)

unfoldable pub stack_pop : FixedStack → ℕ × FixedStack
stack_pop s =
    if not (is_empty s)
    then (s.nodes (s.next - 1), record s { next = s.next - 1 })
    else (2 ^ 64 - 1, s)

-- `stack_init`, whose two allocations succeed or not; `nodes` has room for `num_elems` items
unfoldable pub stack_init : Bool → Bool → ℕ → Option FixedStack
stack_init kzalloc_ok vzalloc_ok num_elems =
    if kzalloc_ok && vzalloc_ok
    then some (record { nodes = λ i. 0; num_elems = num_elems; next = 0 })
    else none

-- After a push, a pop gives the item back, and leaves the top and every item below it as they were
-- before the push; this holds until there is one item more than the array has room for.
pub stack_pop-push :
    (s : FixedStack) (item : ℕ)
    → s.next ≤ s.num_elems
    → ((stack_push s item).0 ≡ pos 0)
      × ((stack_pop (stack_push s item).1).0 ≡ item)
      × ((stack_pop (stack_push s item).1).1.next ≡ s.next)
      × ((j : ℕ) → j < s.next → (stack_pop (stack_push s item).1).1.nodes j ≡ s.nodes j)
unfolding stack_pop stack_push is_full is_empty
stack_pop-push s item h =
    let room : leb (s.num_elems + 1) s.next ≡ false = ground arith in
    let some_left : (s.next + 1 == 0) ≡ false = ground arith in
    rw (room, some_left) (refl, ground arith, omega arith, λ j below. ground arith)

-- With all `num_elems` places taken, a push still succeeds, and writes the place behind the array.
pub stack_push-overruns :
    (s : FixedStack) (item : ℕ)
    → s.next ≡ s.num_elems
    → ((stack_push s item).0 ≡ pos 0)
      × ((stack_push s item).1.nodes s.num_elems ≡ item)
      × ((stack_push s item).1.next ≡ s.num_elems + 1)
unfolding stack_push is_full
stack_push-overruns s item h =
    let room : leb (s.num_elems + 1) s.next ≡ false = ground arith in
    rw room (refl, ground arith, omega arith)
