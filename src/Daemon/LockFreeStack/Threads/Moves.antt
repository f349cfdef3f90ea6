-- ===== src/Daemon/LockFreeStack/Threads/Moves.antt =====
-- Each step of a thread keeps the invariant.
use cleancache_rdma.Prelude.{ℕ, ◌≡◌, refl, Bool, List, ◌++◌, some}
use cleancache_rdma.Daemon.LockFreeStack.{LockFreeStack}
use cleancache_rdma.Daemon.LockFreeStack.Lists.{NotIn, values}
use cleancache_rdma.Daemon.LockFreeStack.Threads.{
  storing, taking, Pc, idle, pop_top, pop_exchange, pop_done, push_start, push_top, push_exchange,
  stored, took, advance, Event, add_op, op_of, HasTags,
}
use cleancache_rdma.Daemon.LockFreeStack.Threads.Owners.{owner}
use cleancache_rdma.Daemon.LockFreeStack.Threads.Places.{Places}
use cleancache_rdma.Daemon.LockFreeStack.Threads.Local.{status, Says, Fresh}
use cleancache_rdma.Daemon.LockFreeStack.Threads.Invariant.{Replays, Steps}
use cleancache_rdma.Daemon.LockFreeStack.Threads.Silent.{silent}
use cleancache_rdma.Daemon.LockFreeStack.Threads.Pops.{pop_top-Steps, pop_exchange-Steps}
use cleancache_rdma.Daemon.LockFreeStack.Threads.Pushes.{
  write_Steps, link_Steps, push_exchange-Steps,
}

module _ (m : LockFreeStack) (nodes frees : List ℕ) (log : List Event) (i : ℕ)
    (places : Places m nodes frees) (replays : Replays log (values m.value nodes)) where
  pub advance-Steps :
      (p : Pc) (strong : Bool)
      → HasTags m
      → ((n : ℕ) → owner p ≡ some n → NotIn n (nodes ++ frees))
      → Fresh m p
      → Says m p (status i log)
      → Steps m nodes frees log i p
          (advance m p strong).1
          (advance m p strong).0
          (add_op i (op_of m p strong) log)
  unfolding advance op_of
  advance-Steps idle strong tags held f s = silent m nodes frees log i places replays _ _ refl f s
  advance-Steps (pop_top t orig) strong tags held f s =
      pop_top-Steps m nodes frees log i places replays t orig orig.node refl f s
  advance-Steps (pop_exchange t orig n below) strong tags held f s =
      pop_exchange-Steps m nodes frees log i places replays t orig n below strong tags f s
  advance-Steps (pop_done (storing v) n) strong tags held f s =
      write_Steps m nodes frees log i places replays n (held n refl) v s
  advance-Steps (pop_done taking n) strong tags held f s =
      silent m nodes frees log i places replays _ _ refl tt s
  advance-Steps (push_start t n v) strong tags held f s =
      silent m nodes frees log i places replays _ _ refl tt s
  advance-Steps (push_top t n v orig) strong tags held f s =
      link_Steps m nodes frees log i places replays n (held n refl) t v orig s
  advance-Steps (push_exchange t n v orig) strong tags held f s =
      push_exchange-Steps m nodes frees log i places replays n (held n refl) t v orig strong tags f
        s
  advance-Steps (stored v code) strong tags held f s =
      silent m nodes frees log i places replays _ _ refl f s
  advance-Steps (took v) strong tags held f s =
      silent m nodes frees log i places replays _ _ refl f s
