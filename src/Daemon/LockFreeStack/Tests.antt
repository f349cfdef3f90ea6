-- ===== src/Daemon/LockFreeStack/Tests.antt =====
-- Runs of the stack, and its theorems at concrete inputs.
use cleancache_rdma.Prelude.{◌≡◌, refl, Bool, true, [], ◌∷◌, none}
use cleancache_rdma.Prelude.Int.{negsuc}
use cleancache_rdma.Daemon.LockFreeStack.{
  LockFreeStack, fill_from, new, push, pop, stack_push, stack_pop, no_addr, get_free_addr,
  put_free_addr,
}
use cleancache_rdma.Daemon.LockFreeStack.Refine.{
  push_value, pop_value, Represents, new-Represents, stack_push-refines, stack_pop-refines,
}

program : Bool
unfolding fill_from new push pop stack_push stack_pop get_free_addr put_free_addr
program = true

abbrev empty : LockFreeStack
empty = new 2 (λ i. 0) (λ i. none)

abbrev full : LockFreeStack
full = put_free_addr (put_free_addr empty 10) 20

runs :
    ((stack_push full 30).0 ≡ negsuc 0)
    × ((get_free_addr full).0 ≡ 20)
    × ((get_free_addr (get_free_addr full).1).0 ≡ 10)
    × ((get_free_addr (get_free_addr (get_free_addr full).1).1).0 ≡ no_addr)
    × ((get_free_addr (put_free_addr (get_free_addr full).1 30)).0 ≡ 30)
unfolding program
runs = (refl, refl, refl, refl, refl)

empty_Represents : Represents empty []
empty_Represents = new-Represents 1 (λ i. 0) (λ i. none)

pushed_once :
    ((stack_push empty 10).0 ≡ (push_value empty.num_elems [] 10).0)
    × Represents (stack_push empty 10).1 (push_value empty.num_elems [] 10).1
pushed_once = stack_push-refines empty [] 10 empty_Represents

one-Represents : Represents (stack_push empty 10).1 (10 ∷ [])
unfolding push_value new
one-Represents = pushed_once.1

popped_once :
    ((stack_pop (stack_push empty 10).1).0 ≡ (pop_value (10 ∷ [])).0)
    × Represents (stack_pop (stack_push empty 10).1).1 (pop_value (10 ∷ [])).1
popped_once = stack_pop-refines (stack_push empty 10).1 (10 ∷ []) one-Represents
