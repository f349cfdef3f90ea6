-- ===== src/Daemon/Handlers/Tests.antt =====
-- The theorems on the handlers at concrete inputs.
use cleancache_rdma.Prelude.{
  ◌<◌, ℕ, ◌-◌, ◌*◌, ◌≡◌, refl, sym, Bool, true, false, some, [], ◌∷◌, ◌==◌, if◌then◌else◌, arith,
}
use cleancache_rdma.Daemon.Pair.{invalid, ok}
use cleancache_rdma.Daemon.LockFreeStack.Refine.{push_value, pop_value}
use cleancache_rdma.Daemon.PerCpuPool.{
  put_free_addr, get_free_addr, fill_list, fill_lists, allocate_from,
}
use cleancache_rdma.Daemon.PerCpuPool
use cleancache_rdma.Daemon.Longkey.{longkey_to_cid}
use cleancache_rdma.Daemon.LinearProbing.{new}
use cleancache_rdma.Daemon.LinearProbing.Placed.{IsPlaced, new-IsPlaced}
use cleancache_rdma.Daemon.LinearProbing.View.{view, view-Absent}
use cleancache_rdma.Daemon.LinearProbing.Store.{value_of}
use cleancache_rdma.Daemon.CountingBloomFilter
use cleancache_rdma.Daemon.Kv.{Kv, get_ht_shard_id}
use cleancache_rdma.Daemon.Kv
use cleancache_rdma.Daemon.Kv.Shards.{shard_of, Reads, Valued, Known}
use cleancache_rdma.Daemon.Handlers.{Server, Moment, process_put, process_get}
use cleancache_rdma.Daemon.Handlers.Answers.{process_put-posts}
use cleancache_rdma.Daemon.Handlers.Reads.{left, read_reply, process_get-answers}

abbrev by_key : ℕ → ℕ → ℕ
by_key salt key = key

abbrev same : ℕ → ℕ
same n = n

abbrev store : Kv
store = record {
  num_ht_shards = 1;
  cbf_on = true;
  hashes = λ i. new 32;
  pool = PerCpuPool.new 1 1 (4 * 4104) 100000;
  cbfs = λ i. CountingBloomFilter.new 2 64;
  victim_shard_id = 0;
}

abbrev server : Bool → Server
server exclusive = record {
  exclusive_policy = exclusive;
  num_msgs = 4;
  num_data_qps = 1;
  kv = store;
  recvs = [];
  replies = [];
  sent_filters = [];
}

abbrev moment : Moment
moment = record { now = 7; rand = λ i. 3; draw = 5; try_lock = λ i. true; cpu_usage = 80 }

posts_first_page : (Kv.allocate store 0 5).0 ≡ 100000
unfolding Kv.allocate PerCpuPool.allocate allocate_from PerCpuPool.new fill_list fill_lists
    put_free_addr get_free_addr push_value pop_value
posts_first_page = refl

store-IsPlaced : (key : ℕ) → IsPlaced by_key (shard_of by_key store key)
store-IsPlaced key = new-IsPlaced by_key 32 (omega arith)

store-Valued : Valued by_key store 9
unfolding new
store-Valued k live e =
    let gone =
      view-Absent by_key (shard_of by_key store 9) k (store-IsPlaced 9)
        (λ s below at. live.0 (sym at)) in
    ground arith

store-Known : Known by_key (Kv.allocate store 0 5).1 9
unfolding new Kv.allocate get_ht_shard_id
store-Known k old live e =
    let gone =
      view-Absent by_key (shard_of by_key store 9) k (store-IsPlaced 9)
        (λ s below at. live.0 (sym at)) in
    absurd (ground arith)

nine_client : longkey_to_cid 9 < (Kv.allocate store 0 5).1.pool.num_clients
unfolding longkey_to_cid Kv.allocate PerCpuPool.allocate allocate_from PerCpuPool.new fill_list
    fill_lists put_free_addr get_free_addr push_value pop_value
nine_client = omega arith

posts_one :
    (s' : Server) × (process_put by_key same same same (server true) 0 3 4104 9 moment
      ≡ some (ok s'))
    × (s'.recvs
        ≡ (if (Kv.allocate store 0 5).0 == invalid then 4104 else (Kv.allocate store 0 5).0) ∷ [])
    × ((3 == 4 - 1) ≡ false → s'.replies ≡ [])
unfolding new
posts_one =
    process_put-posts by_key same same same (server true) 0 3 4104 9 moment (store-IsPlaced 9)
      (omega arith) (omega arith) (omega arith) store-Valued store-Known nine_client

process_get-answers_example :
    ((process_get by_key same same same (server false) 0 2 9 4096 moment).replies
      ≡ read_reply by_key same same same 2 (value_of (view by_key (shard_of by_key store 9) 9)) 4096
        ∷ [])
    × Reads by_key store
        (process_get by_key same same same (server false) 0 2 9 4096 moment).kv
        9
        (left by_key false store 9)
process_get-answers_example =
    process_get-answers by_key same same same (server false) 0 2 9 4096 moment (store-IsPlaced 9)
      (omega arith)
