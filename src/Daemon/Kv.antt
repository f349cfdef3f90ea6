-- ===== src/Daemon/Kv.antt =====
-- daemon/kv.{hpp,cpp}: the class KV, sharded hash tables with a page pool and a counting filter for
-- each client. One call runs alone, as in LinearProbing. A jump to RETRY is a round; the numbers
-- that `rand` gives to the pool are indexed by the round. The statistics are left out: they count
-- only when DCC_COUNT_CHECK is defined. `longkey_to_cid` of a key that a table gave up is an index into
-- arrays of `num_clients` clients, in the pool and in `cbfs`: past their end, where the code is
-- undefined, a call ends with `client_out_of_range`. A `cid` that is passed is that of a connection.
pub mod Shards
pub mod Update
pub mod Removal
pub mod Capacity
mod Tests
use cleancache_rdma.Prelude.{
  ℕ, zero, suc, ◌+◌, ◌-◌, ◌*◌, ◌/◌, ◌%◌, ◌^◌, Bool, true, false, not, ◌&&◌, Option, none, some, ltb,
  ◌==◌, if◌then◌else◌, Array, update,
}
use cleancache_rdma.Prelude.Int.{pos, negsuc, is_nonzero}
use cleancache_rdma.Daemon.Pair.{
  invalid, no_value, Error, dup_key_failed, client_out_of_range, Run, ok, throw,
}
use cleancache_rdma.Daemon.Longkey.{longkey_to_cid}
use cleancache_rdma.Daemon.LockFreeStack.{no_addr}
use cleancache_rdma.Daemon.LinearProbing.{LinearProbing, Inserted}
use cleancache_rdma.Daemon.LinearProbing
use cleancache_rdma.Daemon.LinearProbing.Evict
use cleancache_rdma.Daemon.PerCpuPool.{
  PerCpuPool, get_thld_free, get_free, allocate_from_peer, megabytes,
}
use cleancache_rdma.Daemon.PerCpuPool
use cleancache_rdma.Daemon.CountingBloomFilter.{CountingBloomFilter}
use cleancache_rdma.Daemon.CountingBloomFilter

pub record Kv : Type 0 where
  pub num_ht_shards : ℕ
  pub cbf_on : Bool
  pub hashes : Array LinearProbing
  pub pool : PerCpuPool
  pub cbfs : Array CountingBloomFilter
  pub victim_shard_id : ℕ

-- `cap`: a tenth more buckets than pages, made a multiple of 8
unfoldable pub table_capacity : ℕ → ℕ
table_capacity mem_pool_size =
    let cap = mem_pool_size / 4096 * 110 % 2 ^ 64 / 100 in
    if cap % 8 == 0 then cap else (cap + (8 - cap % 8)) % 2 ^ 64

-- The constructor for HT_LP_APPROX; `num_hash` and `num_bits` are what `calc_filter_param` computes
-- in floating point.
unfoldable pub new : ℕ → Bool → ℕ → ℕ → ℕ → ℕ → ℕ → ℕ → Kv
new num_ht_shards cbf_on num_clients num_data_qps mem_pool_size start_addr num_hash num_bits =
    record {
      num_ht_shards = num_ht_shards;
      cbf_on = cbf_on;
      hashes = λ i. LinearProbing.new (table_capacity mem_pool_size);
      pool = PerCpuPool.new num_clients num_data_qps mem_pool_size start_addr;
      cbfs = λ i. CountingBloomFilter.new num_hash num_bits;
      victim_shard_id = 0;
    }

-- `pool->Free(value, cid, -1)`
abbrev pub free : Kv → ℕ → ℕ → ℕ → Kv
free kv value cid rand = record kv { pool = PerCpuPool.free kv.pool value cid (negsuc 0) rand }

-- `pool->Allocate(cid, qid)` with a qid of -1
unfoldable pub allocate : Kv → ℕ → ℕ → ℕ × Kv
allocate kv cid rand =
    let (value, pool) = PerCpuPool.allocate kv.pool cid (negsuc 0) rand in
    (value, record kv { pool = pool })

abbrev pub set_shard : Kv → ℕ → LinearProbing → Kv
set_shard kv shard_id t = record kv { hashes = update kv.hashes shard_id t }

module _ (hash_funcs : ℕ → ℕ → ℕ) where
  unfoldable pub get_ht_shard_id : Kv → ℕ → ℕ
  get_ht_shard_id kv key = if ltb 1 kv.num_ht_shards then hash_funcs 0 key % kv.num_ht_shards else 0

  -- `cbfs[cid]->Insert(key)` and `cbfs[cid]->Remove(key)`, where the filters are on
  unfoldable pub cbf_insert : Kv → ℕ → ℕ → Kv
  cbf_insert kv cid key = record kv {
    cbfs =
        if kv.cbf_on
        then update kv.cbfs cid (CountingBloomFilter.insert hash_funcs (kv.cbfs cid) key)
        else kv.cbfs;
  }

  unfoldable pub cbf_remove : Kv → ℕ → ℕ → Kv
  cbf_remove kv cid key = record kv {
    cbfs =
        if kv.cbf_on
        then update kv.cbfs cid (CountingBloomFilter.remove hash_funcs (kv.cbfs cid) key).1
        else kv.cbfs;
  }

  -- What a round of `Insert` does after the call of the table: true where it jumps to RETRY.
  unfoldable pub settle : Kv → ℕ → ℕ → ℕ → Inserted → Run (Bool × Kv)
  settle kv key cid rand r =
      let ev_cid = longkey_to_cid r.ev_key in
      let evicted = free kv r.ev_value ev_cid rand in
      if not (r.ev_key == invalid) && not (r.ev_value == no_value)
      then (if ltb ev_cid kv.pool.num_clients
          then ok (
            false,
            if is_nonzero r.ret
                then evicted
                else cbf_insert (cbf_remove evicted ev_cid r.ev_key) cid key,
          )
          else throw client_out_of_range)
      else if not (r.ev_value == no_value)
      then (if is_nonzero r.ret
          then throw dup_key_failed
          else ok (true, free kv r.ev_value cid rand))
      else ok (false, if is_nonzero r.ret then kv else cbf_insert kv cid key)

  -- `Insert`, with `fuel` rounds; none where it would go on.
  unfoldable pub insert : ℕ → Kv → ℕ → ℕ → ℕ → (ℕ → ℕ) → ℕ → (ℕ → Bool) → Option (Run Kv)
  insert zero kv key value cid rand now try_lock = none
  insert (suc fuel) kv key value cid rand now try_lock =
      let shard_id = get_ht_shard_id kv key in
      elim (LinearProbing.insert hash_funcs (kv.hashes shard_id) key value now invalid try_lock) [
        | throw e ↦ some (throw e)
        | ok r ↦ elim (settle (set_shard kv shard_id r.table) key cid (rand fuel) r) [
          | throw e ↦ some (throw e)
          | ok (true, kv') ↦ insert fuel kv' key value cid rand now try_lock
          | ok (false, kv') ↦ some (ok kv')
        ]
      ]

  unfoldable pub remove : Kv → ℕ → ℕ → ℕ × Kv
  remove kv key cid =
      let shard_id = get_ht_shard_id kv key in
      let (value, t) = LinearProbing.delete hash_funcs (kv.hashes shard_id) key in
      let kv' = set_shard kv shard_id t in
      (value, if value == no_value then kv' else cbf_remove kv' cid key)

  unfoldable pub get : Kv → ℕ → ℕ → ℕ × Kv
  get kv key now =
      let shard_id = get_ht_shard_id kv key in
      let (value, t) = LinearProbing.get hash_funcs (kv.hashes shard_id) key now in
      (value, set_shard kv shard_id t)

  unfoldable pub get_with_flag : Kv → ℕ → Bool → ℕ → ℕ × Kv
  get_with_flag kv key busy now =
      let shard_id = get_ht_shard_id kv key in
      let (value, t) = LinearProbing.get_with_flag hash_funcs (kv.hashes shard_id) key busy now in
      (value, set_shard kv shard_id t)

  -- What `Evict` meets by chance: the draws and the locks of the table's `Evict`, as many of its
  -- attempts as are followed, and the pool's draw.
  pub record Chance : Type 0 where
    pub draw : ℕ → ℕ
    pub try_lock : ℕ → ℕ → Bool
    pub try_prev : ℕ → ℕ → Bool
    pub attempts : ℕ
    pub rand : ℕ

  -- the shard that the next `Evict` takes from; `victim_shard_id` is a size_t
  unfoldable pub victim_shard : Kv → ℕ × Kv
  victim_shard kv = if kv.num_ht_shards == 1 then (0, kv) else (
    kv.victim_shard_id % kv.num_ht_shards,
    record kv { victim_shard_id = (kv.victim_shard_id + 1) % 2 ^ 64 },
  )

  unfoldable pub evict : Kv → Chance → Option (Run Kv)
  evict kv c =
      let (shard_id, kv') = victim_shard kv in
      elim (Evict.evict c.draw c.try_lock c.try_prev (kv.hashes shard_id) c.attempts) [
        | none ↦ none
        | some (throw e) ↦ some (throw e)
        | some (ok (key, value, t)) ↦
            let ev_cid = longkey_to_cid key in
            if ltb ev_cid kv'.pool.num_clients
            then some
                (ok (cbf_remove (free (set_shard kv' shard_id t) value ev_cid c.rand) ev_cid key))
            else some (throw client_out_of_range)
      ]

  -- The inner loop of `Evictor`, followed for `fuel` rounds: true where it ends.
  unfoldable pub evictor_from : ℕ → Kv → ℕ → ℕ → ℕ → (ℕ → Chance) → Option (Run (Bool × Kv))
  evictor_from zero kv fl_id thld_free evict_cnt chances = some (ok (false, kv))
  evictor_from (suc fuel) kv fl_id thld_free evict_cnt chances =
      let (addr, pool) = allocate_from_peer kv.pool fl_id in
      let lent = record kv { pool = pool } in
      let after_lent =
        if ltb (thld_free / 4096) evict_cnt
        then some (ok (true, lent))
        else evictor_from fuel lent fl_id thld_free evict_cnt chances in
      if ltb (megabytes (get_free kv.pool fl_id)) (megabytes thld_free)
      then (if addr == no_addr
          then elim (evict lent (chances fuel)) [
            | none ↦ none
            | some (throw e) ↦ some (throw e)
            | some (ok kv') ↦
                if ltb (thld_free / 4096) (evict_cnt + 1)
                then some (ok (true, kv'))
                else evictor_from fuel kv' fl_id thld_free (evict_cnt + 1) chances
          ]
          else after_lent)
      else some (ok (true, kv))

  -- One round of the outer loop of `Evictor`.
  unfoldable pub evictor : ℕ → Kv → ℕ → ℕ → (ℕ → Chance) → Option (Run (Bool × Kv))
  evictor fuel kv cid qid chances =
      let fl_id = cid * kv.pool.per_cli_fl + qid in
      evictor_from fuel kv fl_id (get_thld_free kv.pool fl_id) 0 chances
