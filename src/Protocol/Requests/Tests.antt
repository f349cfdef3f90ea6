-- ===== src/Protocol/Requests/Tests.antt =====
-- A get and an invalidation at a server of its own, with memory at address 65536.
use cleancache_rdma.Prelude.{ℕ, ◌*◌, ◌≡◌, refl, true, some, [], Array, arith}
use cleancache_rdma.Daemon.LinearProbing.{new}
use cleancache_rdma.Daemon.LinearProbing.Placed.{IsPlaced, new-IsPlaced}
use cleancache_rdma.Daemon.LinearProbing.View.{view}
use cleancache_rdma.Daemon.LinearProbing.Store.{value_of}
use cleancache_rdma.Daemon.CountingBloomFilter
use cleancache_rdma.Daemon.PerCpuPool
use cleancache_rdma.Daemon.Kv.{Kv}
use cleancache_rdma.Daemon.Kv.Shards.{shard_of, Reads}
use cleancache_rdma.Daemon.Handlers.{Server, Moment}
use cleancache_rdma.Daemon.Handlers.Reads.{left}
use cleancache_rdma.Driver.Request.{default_config, write_msg2_request}
use cleancache_rdma.Protocol.Requests.{serve}
use cleancache_rdma.Protocol.Requests.Get.{IsByteOrder, Got, write_msg-Got}
use cleancache_rdma.Protocol.Requests.Invalidate.{Answered, write_msg2-Answered}

abbrev by_key : ℕ → ℕ → ℕ
by_key salt key = key

abbrev same : ℕ → ℕ
same n = n

-- the checksum of a page, by its address
abbrev checksum : ℕ → ℕ
checksum value = 17

same-IsByteOrder : IsByteOrder same same
same-IsByteOrder = record { round_trip = λ x small. refl; zero_fixed = refl }

abbrev store : Kv
store = record {
  num_ht_shards = 1;
  cbf_on = true;
  hashes = λ i. new 32;
  pool = PerCpuPool.new 1 1 (4 * 4104) 100000;
  cbfs = λ i. CountingBloomFilter.new 2 64;
  victim_shard_id = 0;
}

abbrev server : Server
server = record {
  exclusive_policy = true;
  num_msgs = 512;
  num_data_qps = 8;
  kv = store;
  recvs = [];
  replies = [];
  sent_filters = [];
}

abbrev moment : Moment
moment = record { now = 7; rand = λ i. 3; draw = 5; try_lock = λ i. true; cpu_usage = 80 }

abbrev memory : Array ℕ
memory a = 0

store-IsPlaced : (key : ℕ) → IsPlaced by_key (shard_of by_key store key)
store-IsPlaced key = new-IsPlaced by_key 32 (omega arith)

write_msg-Got_example :
    Got by_key same same checksum default_config server 0 3 65536 9 4096 memory moment
write_msg-Got_example =
    write_msg-Got by_key same same checksum default_config server 0 3 65536 9 4096 memory moment
      same-IsByteOrder (λ value. omega arith) (store-IsPlaced 9) (omega arith)

write_msg2-Answered_example :
    (after : Server) × (serve by_key same same checksum default_config server 0 1 65536 memory
        (write_msg2_request same same default_config 65536 1 511 9)
        moment
      ≡ some after)
    × Reads by_key store after.kv 9 (left by_key true store 9)
    × Answered by_key same same checksum default_config server after 511
        (value_of (view by_key (shard_of by_key store 9) 9))
        0
unfolding default_config
write_msg2-Answered_example =
    write_msg2-Answered by_key same same checksum default_config server 0 1 65536 511 9 0 memory
      moment same-IsByteOrder refl (omega arith) (omega arith) (store-IsPlaced 9) (omega arith)
