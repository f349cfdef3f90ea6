-- ===== src/Daemon/Kv/Capacity.antt =====
-- The number of buckets that the constructor gives each table.
use cleancache_rdma.Prelude.{
  ℕ, ◌*◌, ◌/◌, ◌%◌, ◌^◌, ◌≤◌, ◌<◌, ◌≡◌, ◌==◌, Bool-cases, inl, inr, arith,
}
use cleancache_rdma.Daemon.PerCpuPool.{slot_size}
use cleancache_rdma.Daemon.Kv.{table_capacity}

-- For a pool of less than 2 ^ 57 bytes, a table has a multiple of 8 buckets, and a bucket for every
-- page of the pool.
pub table_capacity-enough :
    (mem_pool_size : ℕ)
    → mem_pool_size < 2 ^ 57
    → (table_capacity mem_pool_size % 8 ≡ 0)
      × (mem_pool_size / slot_size ≤ table_capacity mem_pool_size)
unfolding table_capacity
table_capacity-enough mem_pool_size h =
    let cap = mem_pool_size / 4096 * 110 % 2 ^ 64 / 100 in
    elim (Bool-cases (cap % 8 == 0)) [
      | inl e ↦ rw e (ground arith, omega arith)
      | inr e ↦ rw e (omega arith, omega arith)
    ]
