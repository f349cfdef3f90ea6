-- ===== src/Daemon/LockFreeStack/Threads/Single.antt =====
-- A call that no other thread interrupts, against the list of the values.
use cleancache_rdma.Prelude.{ℕ, ◌≡◌, List}
use cleancache_rdma.Daemon.LockFreeStack.{LockFreeStack}
use cleancache_rdma.Daemon.LockFreeStack.Refine.{Represents}
use cleancache_rdma.Daemon.LockFreeStack.Threads.{Pc}

-- the memory of a thread that has returned, as the list that it stands for
pub record Returns (r : LockFreeStack × Pc) (p : Pc) (vs : List ℕ) : Type 0 where
  pub pc : r.1 ≡ p
  pub mem : Represents r.0 vs
