-- ===== src/Daemon/Kv/Tests.antt =====
-- Runs of the store, and its theorems at concrete inputs.
use cleancache_rdma.Prelude.{
  ◌<◌, ℕ, ◌*◌, ◌≡◌, ◌⊎◌, refl, sym, Bool, true, Option, none, some, arith,
}
use cleancache_rdma.Daemon.Pair.{Run, ok, throw}
use cleancache_rdma.Daemon.Longkey.{longkey_to_cid}
use cleancache_rdma.Daemon.LockFreeStack.Refine.{push_value, pop_value}
use cleancache_rdma.Daemon.PerCpuPool.{
  slot_size, put_free_addr, get_free_addr, fill_list, fill_lists,
}
use cleancache_rdma.Daemon.PerCpuPool
use cleancache_rdma.Daemon.LinearProbing.{LinearProbing}
use cleancache_rdma.Daemon.LinearProbing
use cleancache_rdma.Daemon.LinearProbing.Probe.{probe_from, probe}
use cleancache_rdma.Daemon.LinearProbing.Placed.{IsKey, IsPlaced, new-IsPlaced}
use cleancache_rdma.Daemon.LinearProbing.View.{view, view-Absent}
use cleancache_rdma.Daemon.CountingBloomFilter
use cleancache_rdma.Daemon.Kv.{
  Kv, table_capacity, new, get_ht_shard_id, cbf_insert, cbf_remove, settle, insert, remove,
}
use cleancache_rdma.Daemon.Kv.Shards.{shard_of, freed}
use cleancache_rdma.Daemon.Kv.Update.{Settled, insert-Settled}
use cleancache_rdma.Daemon.Kv.Removal.{Removed, remove-Removed}

abbrev by_key : ℕ → ℕ → ℕ
by_key salt key = key

abbrev free_locks : ℕ → Bool
free_locks idx = true

program : Bool
unfolding longkey_to_cid push_value pop_value put_free_addr get_free_addr fill_list fill_lists
    PerCpuPool.new PerCpuPool.free LinearProbing.new probe_from probe view LinearProbing.set_bucket
    LinearProbing.set_tombstone LinearProbing.insert_from LinearProbing.insert
    LinearProbing.delete_from LinearProbing.delete LinearProbing.note_victim
    LinearProbing.next_range CountingBloomFilter.new CountingBloomFilter.bump
    CountingBloomFilter.decrement CountingBloomFilter.compute_hash CountingBloomFilter.insert_from
    CountingBloomFilter.insert CountingBloomFilter.remove_from CountingBloomFilter.remove
    CountingBloomFilter.might_contain_from CountingBloomFilter.might_contain
    CountingBloomFilter.might_contain_idx_from CountingBloomFilter.might_contain_idx table_capacity
    new get_ht_shard_id cbf_insert cbf_remove settle insert remove
program = true

-- one client, one shard, a pool of 20 pages
abbrev fresh : Kv
fresh = new 1 true 1 1 (21 * 4096) 100000 2 64

abbrev after : Option (Run Kv) → Kv
after (some (ok kv)) = kv
after (some (throw e)) = fresh
after none = fresh

abbrev once : Kv
once = after (insert by_key 2 fresh 5 77 0 (λ i. 0) 1 free_locks)

abbrev twice : Kv
twice = after (insert by_key 2 once 5 88 0 (λ i. 0) 2 free_locks)

-- The second page replaces the first, and the filter counts the key twice: it still holds the key
-- when the key is gone.
updates :
    (view by_key (once.hashes 0) 5 ≡ some 77)
    × (view by_key (twice.hashes 0) 5 ≡ some 88)
    × ((remove by_key twice 5 0).0 ≡ 88)
    × (view by_key ((remove by_key twice 5 0).1.hashes 0) 5 ≡ none)
    × (CountingBloomFilter.might_contain by_key ((remove by_key twice 5 0).1.cbfs 0) 5 ≡ true)
unfolding program
updates = (refl, refl, refl, refl, refl)

fresh-IsPlaced : IsPlaced by_key (shard_of by_key fresh 5)
unfolding program
fresh-IsPlaced = new-IsPlaced by_key 24 (omega arith)

fresh-none : (k : ℕ) → IsKey k → view by_key (shard_of by_key fresh 5) k ≡ none
unfolding new LinearProbing.new
fresh-none k live =
    view-Absent by_key (shard_of by_key fresh 5) k fresh-IsPlaced (λ s below e. live.0 (sym e))

five_client : longkey_to_cid 5 < fresh.pool.num_clients
unfolding program longkey_to_cid PerCpuPool.new
five_client = omega arith

insert-Settled_example :
    ((view by_key (shard_of by_key fresh 5) 5 ≡ none)
      × Settled by_key fresh fresh.pool 5 77 0 (insert by_key 2 fresh 5 77 0 (λ i. 0) 1 free_locks))
    ⊎ ((old : ℕ) × (view by_key (shard_of by_key fresh 5) 5 ≡ some old)
        × Settled by_key fresh
            (freed fresh.pool old 0 0)
            5
            77
            0
            (insert by_key 2 fresh 5 77 0 (λ i. 0) 1 free_locks))
unfolding program
insert-Settled_example =
    insert-Settled by_key fresh 5 77 0 (λ i. 0) 1 free_locks fresh-IsPlaced (omega arith)
      (omega arith) (omega arith) (λ k live e. let gone = fresh-none k live in ground arith)
      (λ k old live e. let gone = fresh-none k live in absurd (ground arith)) five_client

remove-Removed_example :
    Removed by_key fresh 5 0 (remove by_key fresh 5 0).0 (remove by_key fresh 5 0).1
remove-Removed_example = remove-Removed by_key fresh 5 0 fresh-IsPlaced (omega arith)
