-- ===== src/Daemon/LockFreeStack.antt =====
-- daemon/util/lfstack.{hpp,cpp}: the class LockFreeStack, and daemon/freelist.hpp: the class
-- FreeList, which is a stack of addresses. One call runs alone, so the first exchange of a head
-- succeeds. A node is its index in `node_buffer`, the null pointer is `none`.
mod Lists
pub mod Refine
pub mod Threads
mod Tests
use cleancache_rdma.Prelude.{ℕ, zero, suc, ◌+◌, ◌-◌, ◌%◌, ◌^◌, Option, none, some, Array, update}
use cleancache_rdma.Prelude.Int.{ℤ, pos, negsuc}

-- struct lfstack_head
pub record Head : Type 0 where
  pub aba : ℕ
  pub node : Option ℕ

pub record LockFreeStack : Type 0 where
  pub num_elems : ℕ
  -- the fields of the nodes
  pub value : Array ℕ
  pub next : Array (Option ℕ)
  pub head : Head
  pub free : Head

-- `for (i = 0; i < num_elems - 1; i++) node_buffer[i].next = node_buffer + i + 1`
unfoldable pub fill_from : ℕ → ℕ → Array (Option ℕ) → Array (Option ℕ)
fill_from zero i next = next
fill_from (suc n) i next = fill_from n (i + 1) (update next i (some (i + 1)))

-- The constructor; `value` and `next` are what the allocated memory holds.
unfoldable pub new : ℕ → Array ℕ → Array (Option ℕ) → LockFreeStack
new num_elems value next = record {
  num_elems = num_elems;
  value = value;
  next = update (fill_from (num_elems - 1) 0 next) (num_elems - 1) none;
  head = record { aba = 0; node = none };
  free = record { aba = 0; node = some 0 };
}

-- `push` on one of the two heads, with the `next` fields.
unfoldable pub push : Head → Array (Option ℕ) → ℕ → Head × Array (Option ℕ)
push orig next node =
    (record { aba = (orig.aba + 1) % 2 ^ 64; node = some node }, update next node orig.node)

unfoldable pub pop_node : Head → Array (Option ℕ) → Option ℕ → Option ℕ × Head
pop_node orig next none = (none, orig)
pop_node orig next (some node) =
    (some node, record { aba = (orig.aba + 1) % 2 ^ 64; node = next node })

-- `pop`
unfoldable pub pop : Head → Array (Option ℕ) → Option ℕ × Head
unfolding pop_node
pop orig next = pop_node orig next orig.node

unfoldable pub stack_push : LockFreeStack → ℕ → ℤ × LockFreeStack
stack_push t value =
    let (node, free) = pop t.free t.next in
    elim node [
      | none ↦ (negsuc 0, t)
      | some n ↦
          let (head, next) = push t.head t.next n in
          (
            pos 0,
            record t { value = update t.value n value; next = next; head = head; free = free },
          )
    ]

-- (uintptr_t) -1
abbrev pub no_addr : ℕ
no_addr = 2 ^ 64 - 1

unfoldable pub stack_pop : LockFreeStack → ℕ × LockFreeStack
stack_pop t =
    let (node, head) = pop t.head t.next in
    elim node [
      | none ↦ (no_addr, t)
      | some n ↦
          let (free, next) = push t.free t.next n in
          (t.value n, record t { next = next; head = head; free = free })
    ]

-- FreeList::GetFreeAddr
unfoldable pub get_free_addr : LockFreeStack → ℕ × LockFreeStack
get_free_addr t = stack_pop t

-- FreeList::PutFreeAddr, of an address that is not -1; the code of `stack_push` is dropped.
unfoldable pub put_free_addr : LockFreeStack → ℕ → LockFreeStack
put_free_addr t addr = (stack_push t addr).1
