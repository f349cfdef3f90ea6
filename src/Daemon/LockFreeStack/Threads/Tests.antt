-- ===== src/Daemon/LockFreeStack/Threads/Tests.antt =====
-- Two threads on a stack of two nodes: thread 1 stops between its read of a node's `next` and its
-- exchange, thread 0 takes that node and puts it back, so that the head points to it again.
use native.Mathlib.Decide.{dec_lt}
use cleancache_rdma.Prelude.{
  ◌≢◌, ℕ, zero, suc, ◌+◌, ◌^◌, ◌≡◌, refl, Bool, true, List, ◌++◌, Option, none, some,
}
use cleancache_rdma.Prelude.Int.{ℤ, pos}
use cleancache_rdma.Daemon.LockFreeStack.{LockFreeStack, new, fill_from}
use cleancache_rdma.Daemon.LockFreeStack.Threads.Alone.{alone}
use cleancache_rdma.Daemon.LockFreeStack.Lists.{Linked, values}
use cleancache_rdma.Daemon.LockFreeStack.Threads.{
  Task, storing, taking, Pc, idle, pop_top, stored, took, finds, advance, op_of, System, run, call,
  init, IsDone, at_start, has_stored, has_taken, Reach, start, called, ran,
}
use cleancache_rdma.Daemon.LockFreeStack.Threads.Owners.{owner, Owners}
use cleancache_rdma.Daemon.LockFreeStack.Threads.Places.{Places}
use cleancache_rdma.Daemon.LockFreeStack.Threads.Local.{status, Stores, Takes}
use cleancache_rdma.Daemon.LockFreeStack.Threads.Invariant.{Replays}
use cleancache_rdma.Daemon.LockFreeStack.Threads.Linear.{SameNode, Reach-Replays, Reach-Owners}

record Made : Type 0 where
  s : System
  reach : Reach 2 s

unfoldable step : ℕ → Made → Made
step i r = elim (dec_lt (r.s.mem.head.aba + 1) (2 ^ 64)) [
  | no big ↦ r
  | yes small ↦ elim (dec_lt (r.s.mem.free.aba + 1) (2 ^ 64)) [
    | no big ↦ r
    | yes small' ↦ record { s = run r.s i true; reach = ran i true r.reach (small, small') }
  ]
]

done : (p : Pc) → Option (IsDone p)
done idle = some at_start
done (stored v code) = some (has_stored v code)
done (took v) = some (has_taken v)
done p = none

unfoldable begin : ℕ → Task → Made → Made
begin i t r = elim (done (r.s.pc i)) [
  | none ↦ r
  | some d ↦ record { s = call r.s i t; reach = called i t r.reach d }
]

unfoldable steps : ℕ → ℕ → Made → Made
steps zero i r = r
steps (suc k) i r = steps k i (step i r)

-- 5 and 6 are pushed; thread 1 begins to take 6, thread 0 takes 6 and pushes 7 in its node
unfoldable interleaved : Made
interleaved =
    let new_stack : Made = record {
      s = init 2 (λ i. 0) (λ i. none);
      reach = start (λ i. 0) (λ i. none);
    } in
    let two = steps 6 0 (begin 0 (storing 6) (steps 6 0 (begin 0 (storing 5) new_stack))) in
    let stopped = steps 1 1 (begin 1 taking two) in
    let again = steps 6 0 (begin 0 (storing 7) (steps 6 0 (begin 0 taking stopped))) in
    steps 8 1 again

program : Bool
unfolding interleaved steps begin done step run call advance op_of finds new fill_from dec_lt
program = true

-- The exchange of thread 1 fails, since the tag has changed, and it takes 7.
interleaved_lem :
    (interleaved.s.pc 1 ≡ took 7)
    × (interleaved.s.pc 0 ≡ stored 7 (pos 0))
    × (interleaved.s.mem.head.aba ≡ 5)
unfolding program
interleaved_lem = (refl, refl, refl)

Reach-Replays_example :
    (nodes : List ℕ) × Linked interleaved.s.mem.next interleaved.s.mem.head.node nodes
    × Replays interleaved.s.log (values interleaved.s.mem.value nodes)
    × ((i v : ℕ) (code : ℤ)
        → interleaved.s.pc i ≡ stored v code
        → Stores v code (status i interleaved.s.log))
    × ((i v : ℕ) → interleaved.s.pc i ≡ took v → Takes v (status i interleaved.s.log))
Reach-Replays_example = Reach-Replays 1 interleaved.reach

Reach-Owners_example :
    (nodes : List ℕ) × (frees : List ℕ) × Places interleaved.s.mem nodes frees
    × Owners 2 interleaved.s.pc (nodes ++ frees)
    × ((i k : ℕ) (strong : Bool)
        → owner (interleaved.s.pc i) ≢ some k
        → SameNode interleaved.s.mem (run interleaved.s i strong).mem k)
    × ((i k : ℕ) (t : Task) → SameNode interleaved.s.mem (call interleaved.s i t).mem k)
Reach-Owners_example = Reach-Owners 1 interleaved.reach

-- a stack that 10 was pushed on by itself
abbrev empty : LockFreeStack
empty = new 2 (λ i. 0) (λ i. none)

abbrev ten : LockFreeStack
ten = (alone 6 empty (pop_top (storing 10) empty.free)).0
