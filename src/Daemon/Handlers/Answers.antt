-- ===== src/Daemon/Handlers/Answers.antt =====
-- What the handlers answer, and what they leave behind.
use cleancache_rdma.Prelude.{
  ℕ, ◌-◌, ◌<◌, ◌≡◌, ◌≢◌, inl, inr, refl, Bool, false, Option, some, ◌∷◌, ◌==◌, if◌then◌else◌,
  Bool-cases,
}
use cleancache_rdma.Daemon.Pair.{invalid, no_value, Run, ok}
use cleancache_rdma.Daemon.Longkey.{longkey_to_cid}
use cleancache_rdma.Daemon.LinearProbing.{max_probing_len}
use cleancache_rdma.Daemon.LinearProbing.Placed.{IsKey, IsPlaced}
use cleancache_rdma.Daemon.PerCpuPool.{PerCpuPool}
use cleancache_rdma.Daemon.Kv.{Kv, get_ht_shard_id}
use cleancache_rdma.Daemon.Kv
use cleancache_rdma.Daemon.Kv.Shards.{shard_of, Valued, Known}
use cleancache_rdma.Daemon.Kv.Update.{Settled, put, displaced, turned_away, insert-Settled}
use cleancache_rdma.Daemon.Handlers.{Server, Moment, reply_put, process_put}

module _ (hash_funcs : ℕ → ℕ → ℕ) where
  Settled-returns :
      {kv : Kv} {pool : PerCpuPool} {key value cid : ℕ} {r : Option (Run Kv)}
      → Settled hash_funcs kv pool key value cid r
      → (kv' : Kv) × (r ≡ some (ok kv'))
  Settled-returns (put {kv'} reads p c) = (kv', refl)
  Settled-returns (displaced {kv'} victim old rand k ne e reads p c) = (kv', refl)
  Settled-returns (turned_away {kv'} rand reads p c) = (kv', refl)

  insert-returns :
      (kv : Kv) (key value cid : ℕ) (rand : ℕ → ℕ) (now : ℕ) (try_lock : ℕ → Bool)
      → IsPlaced hash_funcs (shard_of hash_funcs kv key)
      → max_probing_len < (shard_of hash_funcs kv key).capacity
      → IsKey key
      → value ≢ no_value
      → Valued hash_funcs kv key
      → Known hash_funcs kv key
      → longkey_to_cid key < kv.pool.num_clients
      → (kv' : Kv) × (Kv.insert hash_funcs 2 kv key value cid rand now try_lock ≡ some (ok kv'))
  insert-returns kv key value cid rand now try_lock p large k v vals seen own =
      elim (insert-Settled hash_funcs kv key value cid rand now try_lock p large k v vals seen
        own) [ inl (e, s) ↦ Settled-returns s | inr (old, e, s) ↦ Settled-returns s ]

module _ (hash_funcs : ℕ → ℕ → ℕ) (htonl ntohl crc8 : ℕ → ℕ) where
  reply_put-recvs :
      (s : Server) (mid cpu : ℕ) → (reply_put hash_funcs htonl ntohl crc8 s mid cpu).recvs ≡ s.recvs
  unfolding reply_put
  reply_put-recvs s mid cpu = elim (Bool-cases (mid == s.num_msgs - 1)) [
    | inl e ↦ rw e
    | inr e ↦ rw e
  ]

  reply_put-quiet :
      (s : Server) (mid cpu : ℕ)
      → (mid == s.num_msgs - 1) ≡ false
      → (reply_put hash_funcs htonl ntohl crc8 s mid cpu).replies ≡ s.replies
  unfolding reply_put
  reply_put-quiet s mid cpu e = rw e

  -- `process_put` of a page's key, into a well-placed shard of more than 15 buckets whose pairs all
  -- have pages and whose keys are of clients that there are, returns, and posts one buffer for the one that it was given: that buffer again when
  -- the pool has no page, the page from the pool otherwise. It replies to the last message only.
  pub process_put-posts :
      (s : Server) (cid mid recv_addr key : ℕ) (m : Moment)
      → IsPlaced hash_funcs (shard_of hash_funcs s.kv key)
      → max_probing_len < (shard_of hash_funcs s.kv key).capacity
      → IsKey key
      → recv_addr ≢ no_value
      → Valued hash_funcs s.kv key
      → Known hash_funcs (Kv.allocate s.kv cid m.draw).1 key
      → longkey_to_cid key < (Kv.allocate s.kv cid m.draw).1.pool.num_clients
      → (s' : Server) × (process_put hash_funcs htonl ntohl crc8 s cid mid recv_addr key m
          ≡ some (ok s'))
        × (s'.recvs
            ≡ (if (Kv.allocate s.kv cid m.draw).0 == invalid
                then recv_addr
                else (Kv.allocate s.kv cid m.draw).0)
              ∷ s.recvs)
        × ((mid == s.num_msgs - 1) ≡ false → s'.replies ≡ s.replies)
  unfolding process_put Kv.allocate get_ht_shard_id
  process_put-posts s cid mid recv_addr key m p large k v vals seen own =
      let kv = (Kv.allocate s.kv cid m.draw).1 in
      let done =
        insert-returns hash_funcs kv key recv_addr cid m.rand m.now m.try_lock p large k v vals seen
          own in
      let last = mid == s.num_msgs - 1 in
      elim (Bool-cases ((Kv.allocate s.kv cid m.draw).0 == invalid)) [
        | inl e ↦
            rw e (_, refl, reply_put-recvs _ mid m.cpu_usage, reply_put-quiet _ mid m.cpu_usage)
        | inr e ↦
            rw (e, done.1)
              (_, refl, reply_put-recvs _ mid m.cpu_usage, reply_put-quiet _ mid m.cpu_usage)
      ]
