-- ===== src/Daemon/Setup.antt =====
-- daemon/rdma.cpp: the buffers that a queue of a new connection posts to receive. `rand` are the
-- pool's draws, by the rounds left.
use cleancache_rdma.Prelude.{ℕ, zero, suc, ◌-◌, ltb, if◌then◌else◌}
use cleancache_rdma.Prelude.Int.{pos}
use cleancache_rdma.Daemon.Pair.{no_value}
use cleancache_rdma.Daemon.PerCpuPool
use cleancache_rdma.Daemon.Handlers.{Server, post_recv}

abbrev pub qp_max_recv_wr : ℕ
qp_max_recv_wr = 4096

abbrev pub max_qps_recvs : ℕ
max_qps_recvs = qp_max_recv_wr - 1

-- `kv->Allocate(cid, qid)`
abbrev pub allocate : Server → ℕ → ℕ → ℕ → ℕ × Server
allocate s cid qid draw =
    let (value, pool) = PerCpuPool.allocate s.kv.pool cid (pos qid) draw in
    (value, record s { kv = record s.kv { pool = pool } })

-- one buffer: a page on a data queue, NULL on the filter queue
unfoldable pub pre_post_recv : Server → ℕ → ℕ → ℕ → Server
pre_post_recv s cid qid draw =
    if ltb qid s.num_data_qps
    then (let (value, s') = allocate s cid qid draw in post_recv s' value)
    else post_recv s no_value

-- The loop, with the rounds left.
unfoldable pub pre_post_recvs_from : ℕ → Server → ℕ → ℕ → (ℕ → ℕ) → Server
pre_post_recvs_from zero s cid qid rand = s
pre_post_recvs_from (suc n) s cid qid rand =
    pre_post_recvs_from n (pre_post_recv s cid qid (rand n)) cid qid rand

unfoldable pub pre_post_recvs : Server → ℕ → ℕ → (ℕ → ℕ) → Server
pre_post_recvs = pre_post_recvs_from max_qps_recvs
