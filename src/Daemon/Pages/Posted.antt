-- ===== src/Daemon/Pages/Posted.antt =====
-- What `pre_post_recvs` posts.
use cleancache_rdma.Prelude.{
  ℕ, zero, suc, ◌+◌, ◌≤◌, ◌<◌, ◌≡◌, ◌⊎◌, inl, inr, refl, ◌∙◌, List, ltb, length, arith, Bool-cases,
}
use cleancache_rdma.Prelude.Int.{pos}
use cleancache_rdma.Daemon.Pair.{no_value}
use cleancache_rdma.Daemon.LockFreeStack.{no_addr}
use cleancache_rdma.Daemon.PerCpuPool
use cleancache_rdma.Daemon.PerCpuPool.Pages.{Allocated, exhausted, served, allocate-Allocated}
use cleancache_rdma.Daemon.Handlers.{Server}
use cleancache_rdma.Daemon.Setup.{
  allocate, pre_post_recv, pre_post_recvs_from, pre_post_recvs, max_qps_recvs,
}
use cleancache_rdma.Daemon.Pages.{count, pages}
use cleancache_rdma.Daemon.Pages.Pool.{handed_none, handed_page, allocate_page_at}
use cleancache_rdma.Daemon.Pages.Messages.{Kept, posts_page}

-- A round posts one buffer, and no other is taken away.
posts_one :
    (s : Server) (cid qid draw : ℕ)
    → (length (pre_post_recv s cid qid draw).recvs ≡ 1 + length s.recvs)
      × (count no_addr s.recvs ≤ count no_addr (pre_post_recv s cid qid draw).recvs)
      × ((pre_post_recv s cid qid draw).num_data_qps ≡ s.num_data_qps)
unfolding pre_post_recv
posts_one s cid qid draw = elim (Bool-cases (ltb qid s.num_data_qps)) [
  | inl d ↦ rw d (omega arith, omega arith, refl)
  | inr d ↦ rw d (omega arith, omega arith, refl)
]

-- The rounds post as many buffers as there are.
posts_all :
    (n : ℕ) (s : Server) (cid qid : ℕ) (rand : ℕ → ℕ)
    → (length (pre_post_recvs_from n s cid qid rand).recvs ≡ n + length s.recvs)
      × (count no_addr s.recvs ≤ count no_addr (pre_post_recvs_from n s cid qid rand).recvs)
unfolding pre_post_recvs_from
posts_all zero s cid qid rand = (omega arith, omega arith)
posts_all (suc n) s cid qid rand =
    let one = posts_one s cid qid (rand n) in
    let rest = posts_all n (pre_post_recv s cid qid (rand n)) cid qid rand in
    (omega (arith, one.0, rest.0), omega (arith, one.1, rest.1))

Allocated-queues :
    {p : PerCpuPool.PerCpuPool} {first : ℕ} {r : ℕ × PerCpuPool.PerCpuPool}
    → Allocated p first r
    → r.1.per_cli_fl ≡ p.per_cli_fl
Allocated-queues exhausted = refl
Allocated-queues (served fl a rest own top page) = refl

-- as many queues to a client as the pool has lists for it
abbrev HasLists : Server → Type 0
HasLists s = s.kv.pool.per_cli_fl ≡ s.num_data_qps

module _ (hash_funcs : ℕ → ℕ → ℕ) (all : List ℕ) (real : count no_addr all ≡ 0)
    (some_page : count no_value all ≡ 0) (cid qid : ℕ) (lost : List ℕ) where
  -- Each page is in one place, or a buffer at -1 is posted.
  abbrev Posted : Server → Server → Type 0
  Posted s s' =
      Kept hash_funcs all real some_page s' lost
      ⊎ ((qid < s.num_data_qps) × (0 < count no_addr s'.recvs))

  pre_post_recv-Posted :
      (s : Server) (draw : ℕ)
      → HasLists s
      → Kept hash_funcs all real some_page s lost
      → Posted s (pre_post_recv s cid qid draw)
  unfolding pre_post_recv
  pre_post_recv-Posted s draw queues k = elim (Bool-cases (ltb qid s.num_data_qps)) [
    | inl d ↦
        elim (allocate_page_at all (pages s.recvs) lost _ s.kv.pool k.pool k.owned real cid qid draw
          (ground (arith, d, queues))) [
            | handed_none e p c o ↦ rw d (inr (ground (arith, d), ground (arith, e)))
            | handed_page e p c o ↦ rw d (
                inl (
                  posts_page hash_funcs all real some_page (allocate s cid qid draw).1 _ lost
                    (record { tables = k.tables; pool = p; known = rw c k.known; owned = o })))
          ]
    | inr d ↦ rw d (inl k)
  ]

  pre_post_recv-HasLists :
      (s : Server) (draw : ℕ)
      → HasLists s
      → Kept hash_funcs all real some_page s lost
      → HasLists (pre_post_recv s cid qid draw)
  unfolding pre_post_recv
  pre_post_recv-HasLists s draw queues k = elim (Bool-cases (ltb qid s.num_data_qps)) [
    | inl d ↦
        let own : qid < s.kv.pool.per_cli_fl = ground (arith, d, queues) in
        rw d (
          Allocated-queues
            (allocate-Allocated s.kv.pool cid (pos qid) draw k.pool.balanced k.pool.queues own).0
          ∙ queues)
    | inr d ↦ rw d queues
  ]

  pre_post_recvs_from-Posted :
      (n : ℕ) (s : Server) (rand : ℕ → ℕ)
      → HasLists s
      → Kept hash_funcs all real some_page s lost
      → Posted s (pre_post_recvs_from n s cid qid rand)
  unfolding pre_post_recvs_from
  pre_post_recvs_from-Posted zero s rand queues k = inl k
  pre_post_recvs_from-Posted (suc n) s rand queues k =
      let next = pre_post_recv s cid qid (rand n) in
      let same : next.num_data_qps ≡ s.num_data_qps = (posts_one s cid qid (rand n)).2 in
      elim (pre_post_recv-Posted s (rand n) queues k) [
        | inl k' ↦
            elim (pre_post_recvs_from-Posted n next rand
              (pre_post_recv-HasLists s (rand n) queues k) k') [
                | inl kept ↦ inl kept
                | inr (below, hit) ↦ inr (omega (arith, below, same), hit)
              ]
        | inr (below, hit) ↦ inr (below, omega (arith, hit, (posts_all n next cid qid rand).1))
      ]

  -- For a server with each page in one place and sound tables and pool, and with as many data queues
  -- to a client as the pool has lists for it, `pre_post_recvs` posts 4095 buffers. Then each page
  -- is in one place again and the tables and the pool are sound, or the queue is a data queue and a
  -- buffer at -1 is posted.
  pub pre_post_recvs-Posted :
      (s : Server) (rand : ℕ → ℕ)
      → s.kv.pool.per_cli_fl ≡ s.num_data_qps
      → Kept hash_funcs all real some_page s lost
      → (length (pre_post_recvs s cid qid rand).recvs ≡ 4095 + length s.recvs)
        × (Kept hash_funcs all real some_page (pre_post_recvs s cid qid rand) lost
            ⊎ ((qid < s.num_data_qps) × (0 < count no_addr (pre_post_recvs s cid qid rand).recvs)))
  unfolding pre_post_recvs
  pre_post_recvs-Posted s rand queues k = (
    (posts_all max_qps_recvs s cid qid rand).0,
    pre_post_recvs_from-Posted max_qps_recvs s rand queues k,
  )
