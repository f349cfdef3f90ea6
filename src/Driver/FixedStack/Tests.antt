-- ===== src/Driver/FixedStack/Tests.antt =====
-- The theorems on the stack at concrete inputs.
use cleancache_rdma.Prelude.{◌+◌, ◌≡◌, refl, Bool, true}
use cleancache_rdma.Prelude.Int.{pos, negsuc}
use cleancache_rdma.Driver.FixedStack.{
  FixedStack, is_full, is_empty, stack_push, stack_pop, stack_push-overruns,
}

program : Bool
unfolding is_full is_empty stack_push stack_pop
program = true

-- two places, both taken
abbrev taken : FixedStack
taken = record { nodes = λ i. i + 10; num_elems = 2; next = 2 }

one_too_many :
    ((stack_push taken 9).0 ≡ pos 0) × ((stack_push (stack_push taken 9).1 8).0 ≡ negsuc 0)
unfolding program
one_too_many = (refl, refl)

written_behind :
    ((stack_push taken 9).0 ≡ pos 0)
    × ((stack_push taken 9).1.nodes 2 ≡ 9)
    × ((stack_push taken 9).1.next ≡ 3)
written_behind = stack_push-overruns taken 9 refl
