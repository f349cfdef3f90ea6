-- ===== src/Daemon/Kv/Shards.antt =====
-- The table of a key, and what a call of KV leaves of the tables.
use cleancache_rdma.Prelude.{
  ℕ, ◌<◌, ◌≡◌, ◌≢◌, refl, ap, ◌∙◌, false, Option, some, ◌==◌, if◌then◌else◌, ==_iff, Array, update,
  arith,
}
use cleancache_rdma.Prelude.Int.{negsuc}
use cleancache_rdma.Daemon.Pair.{no_value}
use cleancache_rdma.Daemon.Longkey.{longkey_to_cid}
use cleancache_rdma.Daemon.LinearProbing.{LinearProbing}
use cleancache_rdma.Daemon.LinearProbing.Placed.{IsKey, IsPlaced}
use cleancache_rdma.Daemon.LinearProbing.View.{view}
use cleancache_rdma.Daemon.PerCpuPool.{PerCpuPool}
use cleancache_rdma.Daemon.PerCpuPool
use cleancache_rdma.Daemon.CountingBloomFilter.{CountingBloomFilter}
use cleancache_rdma.Daemon.CountingBloomFilter
use cleancache_rdma.Daemon.Kv.{Kv, get_ht_shard_id}

-- the pool after a `Free` for client `cid`
abbrev pub freed : PerCpuPool → ℕ → ℕ → ℕ → PerCpuPool
freed pool value cid rand = PerCpuPool.free pool value cid (negsuc 0) rand

module _ (hash_funcs : ℕ → ℕ → ℕ) where
  -- the table of a key's shard
  abbrev pub shard_of : Kv → ℕ → LinearProbing
  shard_of kv key = kv.hashes (get_ht_shard_id hash_funcs kv key)

  -- the filters with `key` counted in for client `cid`, and with it counted out
  abbrev pub added : Kv → ℕ → ℕ → Array CountingBloomFilter
  added kv cid key =
      if kv.cbf_on
      then update kv.cbfs cid (CountingBloomFilter.insert hash_funcs (kv.cbfs cid) key)
      else kv.cbfs

  abbrev pub dropped : Kv → ℕ → ℕ → Array CountingBloomFilter
  dropped kv cid key =
      if kv.cbf_on
      then update kv.cbfs cid (CountingBloomFilter.remove hash_funcs (kv.cbfs cid) key).1
      else kv.cbfs

  -- The tables after a call: the key's shard is well placed and reads as `entries` says, the others
  -- are as before.
  pub record Reads (kv kv' : Kv) (key : ℕ) (entries : ℕ → Option ℕ) : Type 0 where
    pub placed : IsPlaced hash_funcs (kv'.hashes (get_ht_shard_id hash_funcs kv key))
    pub same_capacity :
        (kv'.hashes (get_ht_shard_id hash_funcs kv key)).capacity
        ≡ (kv.hashes (get_ht_shard_id hash_funcs kv key)).capacity
    pub reads :
        (k : ℕ)
        → IsKey k
        → view hash_funcs (kv'.hashes (get_ht_shard_id hash_funcs kv key)) k ≡ entries k
    pub others : (s : ℕ) → s ≢ get_ht_shard_id hash_funcs kv key → kv'.hashes s ≡ kv.hashes s

  -- every pair of the key's shard has a value
  abbrev pub Valued : Kv → ℕ → Type 0
  Valued kv key = (k : ℕ) → IsKey k → view hash_funcs (shard_of kv key) k ≢ some no_value

  -- every key of the key's shard is one of a client that there is
  abbrev pub Known : Kv → ℕ → Type 0
  Known kv key =
      (k old : ℕ)
      → IsKey k
      → view hash_funcs (shard_of kv key) k ≡ some old
      → longkey_to_cid k < kv.pool.num_clients

  -- `cur` is `kv` with, at most, another pool and without `key`
  pub record Follows (kv cur : Kv) (key : ℕ) : Type 0 where
    pub shard : get_ht_shard_id hash_funcs cur key ≡ get_ht_shard_id hash_funcs kv key
    pub entries :
        (k : ℕ)
        → IsKey k
        → key ≢ k
        → view hash_funcs (cur.hashes (get_ht_shard_id hash_funcs kv key)) k
          ≡ view hash_funcs (shard_of kv key) k
    pub others : (s : ℕ) → s ≢ get_ht_shard_id hash_funcs kv key → cur.hashes s ≡ kv.hashes s
    pub same_capacity :
        (cur.hashes (get_ht_shard_id hash_funcs kv key)).capacity
        ≡ (kv.hashes (get_ht_shard_id hash_funcs kv key)).capacity
    pub switch : cur.cbf_on ≡ kv.cbf_on
    pub filters : cur.cbfs ≡ kv.cbfs
    pub clients : cur.pool.num_clients ≡ kv.pool.num_clients

  pub Follows-self : (kv : Kv) (key : ℕ) → Follows kv kv key
  Follows-self kv key = record {
    shard = refl;
    entries = λ j kj ne. refl;
    others = λ s ne. refl;
    same_capacity = refl;
    switch = refl;
    filters = refl;
    clients = refl;
  }

  pub Reads-update :
      (kv cur kv' : Kv) (key : ℕ) (t' : LinearProbing) (entries : ℕ → Option ℕ)
      → Follows kv cur key
      → IsPlaced hash_funcs t'
      → t'.capacity ≡ (cur.hashes (get_ht_shard_id hash_funcs kv key)).capacity
      → ((k : ℕ) → IsKey k → view hash_funcs t' k ≡ entries k)
      → kv'.hashes ≡ update cur.hashes (get_ht_shard_id hash_funcs kv key) t'
      → Reads kv kv' key entries
  Reads-update kv cur kv' key t' entries f p same reads e =
      let sh = get_ht_shard_id hash_funcs kv key in
      let here : kv'.hashes sh ≡ t' =
        ap (λ (a : Array LinearProbing). a sh) e ∙ rw ((==_iff sh sh).1 refl) in
      record {
        placed = rw here p;
        same_capacity = rw here (same ∙ f.same_capacity);
        reads = λ k live. rw here (reads k live);
        others = λ s away.
            let apart : (sh == s) ≡ false = ground arith in
            ap (λ (a : Array LinearProbing). a s) e ∙ rw apart (f.others s away);
      }
