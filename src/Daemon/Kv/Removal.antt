-- ===== src/Daemon/Kv/Removal.antt =====
-- What `Remove` of KV does.
use cleancache_rdma.Prelude.{ℕ, ◌≡◌, refl, none, ◌==◌, if◌then◌else◌, Bool-cases, inl, inr}
use cleancache_rdma.Daemon.Pair.{no_value}
use cleancache_rdma.Daemon.LinearProbing.{LinearProbing}
use cleancache_rdma.Daemon.LinearProbing.Placed.{IsKey, IsPlaced}
use cleancache_rdma.Daemon.LinearProbing.View.{view}
use cleancache_rdma.Daemon.LinearProbing.Store.{value_of, delete_lem}
use cleancache_rdma.Daemon.LinearProbing
use cleancache_rdma.Daemon.Kv.{Kv, get_ht_shard_id, cbf_remove, remove}
use cleancache_rdma.Daemon.Kv.Shards.{shard_of, dropped, Reads, Reads-update, Follows-self}

module _ (hash_funcs : ℕ → ℕ → ℕ) where
  -- After `Remove` of a key for client `cid`, which returned `value`.
  pub record Removed (kv : Kv) (key cid value : ℕ) (kv' : Kv) : Type 0 where
    pub answer : value ≡ value_of (view hash_funcs (shard_of hash_funcs kv key) key)
    pub tables :
        Reads hash_funcs kv kv' key
          (λ k. if key == k then none else view hash_funcs (shard_of hash_funcs kv key) k)
    pub filters : kv'.cbfs ≡ (if value == no_value then kv.cbfs else dropped hash_funcs kv cid key)
    pub same_pool : kv'.pool ≡ kv.pool

  -- `Remove` of a key in a well-placed shard returns its page, or NONE, takes the key and no other
  -- out of the tables, and counts it out of the client's filter exactly when it returns a page. It
  -- frees nothing.
  pub remove-Removed :
      (kv : Kv) (key cid : ℕ)
      → IsPlaced hash_funcs (shard_of hash_funcs kv key)
      → IsKey key
      → Removed kv key cid (remove hash_funcs kv key cid).0 (remove hash_funcs kv key cid).1
  unfolding remove cbf_remove
  remove-Removed kv key cid p k =
      let sh = get_ht_shard_id hash_funcs kv key in
      let d = delete_lem hash_funcs (kv.hashes sh) key p k in
      let t' = (LinearProbing.delete hash_funcs (kv.hashes sh) key).1 in
      elim (Bool-cases ((LinearProbing.delete hash_funcs (kv.hashes sh) key).0 == no_value)) [
        | inl e ↦ record {
          answer = d.0;
          tables = rw e (
              Reads-update hash_funcs kv kv _ key t' _ (Follows-self hash_funcs kv key) d.1.placed
                d.1.same_capacity d.1.reads refl);
          filters = rw e;
          same_pool = rw e;
        }
        | inr e ↦ record {
          answer = d.0;
          tables = rw e (
              Reads-update hash_funcs kv kv _ key t' _ (Follows-self hash_funcs kv key) d.1.placed
                d.1.same_capacity d.1.reads refl);
          filters = rw e;
          same_pool = rw e;
        }
      ]
