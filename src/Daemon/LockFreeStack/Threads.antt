-- ===== src/Daemon/LockFreeStack/Threads.antt =====
-- daemon/util/lfstack.cpp under several threads, in steps of one access to the shared memory each: a
-- load of a head, a read or a write of a field of a node, an exchange. Memory is sequentially
-- consistent, as atomics are by default; the fields of the nodes are plain, so this is an assumption
-- for them. `strong` says that an exchange does not fail for no reason, as a weak one may. `log` is no
-- state of the program: it has the calls and the instants at which they take effect, the newest first.
pub mod Owners
pub mod Places
pub mod Local
pub mod Invariant
pub mod Silent
pub mod Pops
pub mod Pushes
pub mod Moves
pub mod Linear
pub mod Alone
pub mod Single
mod Tests
use cleancache_rdma.Prelude.{
  ℕ, ◌+◌, ◌%◌, ◌^◌, ◌<◌, Bool, true, false, ◌&&◌, List, [], ◌∷◌, Option, none, some, ◌==◌,
  if◌then◌else◌, Array, update,
}
use cleancache_rdma.Prelude.Int.{ℤ, pos, negsuc}
use cleancache_rdma.Daemon.LockFreeStack.{Head, LockFreeStack, new, no_addr}

-- what a thread does: `stack_push(v)` or `stack_pop()`
pub data Task : Type 0 where
  storing : ℕ → Task
  taking : Task

-- Where a thread stands, with its locals. `v` is the value that is stored or was taken.
pub data Pc : Type 0 where
  idle : Pc
  -- at the top of the loop of `pop`, with `orig`
  pop_top : (t : Task) (orig : Head) → Pc
  -- before the exchange of `pop`, with `orig`, `orig.node` and `next.node`
  pop_exchange : (t : Task) (orig : Head) (n : ℕ) (next : Option ℕ) → Pc
  -- `pop` has returned node `n`
  pop_done : (t : Task) (n : ℕ) → Pc
  -- before the load of `push`, of node `n`
  push_start : (t : Task) (n v : ℕ) → Pc
  -- at the top of the loop of `push`
  push_top : (t : Task) (n v : ℕ) (orig : Head) → Pc
  -- before the exchange of `push`
  push_exchange : (t : Task) (n v : ℕ) (orig : Head) → Pc
  -- `stack_push` has returned a code, `stack_pop` a value
  stored : (v : ℕ) (code : ℤ) → Pc
  took : (v : ℕ) → Pc

-- the head that `pop` is called on, and the one that `push` is called on
abbrev pub source : Task → LockFreeStack → Head
source (storing v) m = m.free
source taking m = m.head

abbrev pub target : Task → LockFreeStack → Head
target (storing v) m = m.head
target taking m = m.free

abbrev pub set_source : Task → LockFreeStack → Head → LockFreeStack
set_source (storing v) m h = record m { free = h }
set_source taking m h = record m { head = h }

abbrev pub set_target : Task → LockFreeStack → Head → LockFreeStack
set_target (storing v) m h = record m { head = h }
set_target taking m h = record m { free = h }

abbrev pub same_node : Option ℕ → Option ℕ → Bool
same_node none none = true
same_node none (some b) = false
same_node (some a) none = false
same_node (some a) (some b) = a == b

-- whether an exchange that expects `orig` finds it
unfoldable pub finds : Bool → Head → Head → Bool
finds strong orig now = strong && (orig.aba == now.aba && same_node orig.node now.node)

abbrev pub next_head : Head → Option ℕ → Head
next_head orig node = record { aba = (orig.aba + 1) % 2 ^ 64; node = node }

abbrev pub failed : Task → Pc
failed (storing v) = stored v (negsuc 0)
failed taking = took no_addr

abbrev pub finished : Task → ℕ → Pc
finished (storing v) w = stored v (pos 0)
finished taking w = took w

-- `if (!orig.node) return NULL; next.node = orig.node->next`
abbrev pub read_next : LockFreeStack → Task → Head → Option ℕ → Pc
read_next m t orig none = failed t
read_next m t orig (some n) = pop_exchange t orig n (m.next n)

-- The next step of a thread.
unfoldable pub advance : LockFreeStack → Pc → Bool → LockFreeStack × Pc
advance m idle strong = (m, idle)
advance m (pop_top t orig) strong = (m, read_next m t orig orig.node)
advance m (pop_exchange t orig n next) strong =
    if finds strong orig (source t m)
    then (set_source t m (next_head orig next), pop_done t n)
    else (m, pop_top t (source t m))
advance m (pop_done (storing v) n) strong =
    (record m { value = update m.value n v }, push_start (storing v) n v)
advance m (pop_done taking n) strong = (m, push_start taking n (m.value n))
advance m (push_start t n v) strong = (m, push_top t n v (target t m))
advance m (push_top t n v orig) strong =
    (record m { next = update m.next n orig.node }, push_exchange t n v orig)
advance m (push_exchange t n v orig) strong =
    if finds strong orig (target t m)
    then (set_target t m (next_head orig (some n)), finished t v)
    else (m, push_top t n v (target t m))
advance m (stored v code) strong = (m, stored v code)
advance m (took v) strong = (m, took v)

-- What a call does to the stack, at one instant.
pub data Op : Type 0 where
  pushed : ℕ → Op
  popped : ℕ → Op
  saw_empty : Op
  refused : Op

pub data Event : Type 0 where
  calls : (thread : ℕ) → Task → Event
  effect : (thread : ℕ) → Op → Event

abbrev pub add_op : ℕ → Option Op → List Event → List Event
add_op i none log = log
add_op i (some op) log = effect i op ∷ log

-- A load of a null head settles a call.
abbrev pub saw : Task → Option ℕ → Option Op
saw (storing v) none = some refused
saw taking none = some saw_empty
saw t (some n) = none

abbrev pub on_pop : Task → ℕ → Option Op
on_pop (storing v) w = none
on_pop taking w = some (popped w)

abbrev pub on_push : Task → Option Op
on_push (storing v) = some (pushed v)
on_push taking = none

-- the effect that a step has
unfoldable pub op_of : LockFreeStack → Pc → Bool → Option Op
op_of m (pop_exchange t orig n next) strong =
    if finds strong orig (source t m) then on_pop t (m.value n) else saw t (source t m).node
op_of m (push_exchange t n v orig) strong =
    if finds strong orig (target t m) then on_push t else none
op_of m p strong = none

pub record System : Type 0 where
  pub mem : LockFreeStack
  pub pc : Array Pc
  pub log : List Event

unfoldable pub run : System → ℕ → Bool → System
run s i strong = record {
  mem = (advance s.mem (s.pc i) strong).0;
  pc = update s.pc i (advance s.mem (s.pc i) strong).1;
  log = add_op i (op_of s.mem (s.pc i) strong) s.log;
}

-- A call, up to its first load.
unfoldable pub call : System → ℕ → Task → System
call s i t = record {
  mem = s.mem;
  pc = update s.pc i (pop_top t (source t s.mem));
  log = add_op i (saw t (source t s.mem).node) (calls i t ∷ s.log);
}

abbrev pub init : ℕ → Array ℕ → Array (Option ℕ) → System
init num_elems value next = record { mem = new num_elems value next; pc = λ i. idle; log = [] }

-- A thread that is in no call.
pub data IsDone : Pc → Type 0 where
  at_start : IsDone idle
  has_stored : (v : ℕ) (code : ℤ) → IsDone (stored v code)
  has_taken : (v : ℕ) → IsDone (took v)

-- The tags of the heads do not wrap at the next exchange.
abbrev pub HasTags : LockFreeStack → Type 0
HasTags m = (m.head.aba + 1 < 2 ^ 64) × (m.free.aba + 1 < 2 ^ 64)

-- Runs of any threads from a new stack: calls, and steps in any order.
pub data Reach (num_elems : ℕ) : System → Type 0 where
  start : (value : Array ℕ) (next : Array (Option ℕ)) → Reach num_elems (init num_elems value next)
  called :
      {s : System} (i : ℕ) (t : Task)
      → Reach num_elems s
      → IsDone (s.pc i)
      → Reach num_elems (call s i t)
  ran :
      {s : System} (i : ℕ) (strong : Bool)
      → Reach num_elems s
      → HasTags s.mem
      → Reach num_elems (run s i strong)
