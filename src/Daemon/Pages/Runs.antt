-- ===== src/Daemon/Pages/Runs.antt =====
-- The runs of the server: the completions that the pollers dispatch, in any order, with the buffers
-- that they use up, and the calls of the evictors between them.
use cleancache_rdma.Prelude.{
  ℕ, ◌≡◌, ◌≢◌, inl, inr, sym, ap, ◌∙◌, subst, List, [], none, some, arith,
}
use cleancache_rdma.Daemon.Pair.{no_value, ok}
use cleancache_rdma.Daemon.LockFreeStack.{no_addr}
use cleancache_rdma.Daemon.LinearProbing.Placed.{IsKey}
use cleancache_rdma.Daemon.PerCpuPool
use cleancache_rdma.Daemon.Kv.{Kv, Chance}
use cleancache_rdma.Daemon.Kv
use cleancache_rdma.Daemon.Handlers.{Server}
use cleancache_rdma.Daemon.Imm.{bit_unmask, msg_write}
use cleancache_rdma.Daemon.Poller.{Completion, recv, recv_rdma_with_imm, dispatch}
use cleancache_rdma.Daemon.Pages.{count, pages}
use cleancache_rdma.Daemon.Pages.Pool.{peer_page}
use cleancache_rdma.Daemon.Pages.Evictions.{evict-Keeps}
use cleancache_rdma.Daemon.Pages.Buffers.{IsClientKey, Uses, with_recvs, add_lost}
use cleancache_rdma.Daemon.Pages.Dispatch.{returned, received-Kept, handled-Kept, requested-Kept}
use cleancache_rdma.Daemon.Pages.Messages.{Kept}

module _ (hash_funcs : ℕ → ℕ → ℕ) (htonl ntohl crc8 : ℕ → ℕ) where
  -- `lost` are the pages of the buffers that requests used up: `process_imm` does not look at them.
  pub data Reach (first : Server) : List ℕ → Server → Type 0 where
    start : Reach first [] first
    -- a message of a client with its page, or one of its filter queue
    received :
        {lost : List ℕ} {s s' : Server} (cid qid : ℕ) (wc : Completion) (rest : List ℕ)
        → Reach first lost s
        → Uses wc.wr_id s.recvs rest
        → (qid ≡ s.num_data_qps → wc.wr_id ≡ no_value)
        → (wc.wr_id ≢ no_value → IsClientKey s (wc.key_at wc.wr_id))
        → dispatch hash_funcs htonl ntohl crc8 (with_recvs s rest) cid qid recv wc ≡ some (ok s')
        → Reach first lost s'
    -- a request for a page, or to invalidate one
    requested :
        {lost lost' : List ℕ} {s s' : Server} (cid qid : ℕ) (wc : Completion) (rest : List ℕ)
        → Reach first lost s
        → Uses wc.wr_id s.recvs rest
        → ((mid : ℕ) → IsKey (wc.key_at mid))
        → dispatch hash_funcs htonl ntohl crc8 (with_recvs s rest) cid qid recv_rdma_with_imm wc
          ≡ some (ok s')
        → lost' ≡ add_lost wc.wr_id lost
        → Reach first lost' s'
    -- an evictor's call of `AllocateFromPeer`
    lent :
        {lost : List ℕ} {s : Server} (fl_id : ℕ)
        → Reach first lost s
        → Reach first lost (record s {
          kv = record s.kv { pool = (PerCpuPool.allocate_from_peer s.kv.pool fl_id).1 };
        })
    -- an evictor's call of `Evict`
    evicted :
        {lost : List ℕ} {s : Server} {kv' : Kv} (c : Chance hash_funcs)
        → Reach first lost s
        → Kv.evict hash_funcs s.kv c ≡ some (ok kv')
        → Reach first lost (record s { kv = kv' })

  module _ (all : List ℕ) (real : count no_addr all ≡ 0) (some_page : count no_value all ≡ 0) where
    -- A server goes through any run: messages with pages, filter messages, requests to read or to
    -- invalidate a page, and an evictor's calls of `AllocateFromPeer` and `Evict`, in any order, over
    -- any queue. If each of its pages `all`, none of which is -1 or NULL, is in one place at first, and
    -- its tables and pool are sound, then each is in exactly one place after it, and once there: posted
    -- to receive, on one free list, stored under one key of one shard, or lost. Nothing else is in any
    -- of them, and the tables and the pool are sound again: a table has more than 15 buckets and its
    -- keys where they are found, a free list has the accounts of its addresses and room for all pages,
    -- and each stored key is one of a client below `num_clients`. A page is lost when a request uses up
    -- its buffer. A message whose buffer is a page is on a data queue, the keys that the clients write
    -- are none of the two that mark empty pairs, and the key of a page is one of such a client.
    pub Reach-Kept :
        {first s : Server} {lost : List ℕ}
        → Kept hash_funcs all real some_page first []
        → Reach first lost s
        → Kept hash_funcs all real some_page s lost
    Reach-Kept k start = k
    Reach-Kept k (received {lost} {s} {s'} cid qid wc rest r u filters live e) =
        let (t, d, after) =
          received-Kept hash_funcs htonl ntohl crc8 all real some_page s lost cid qid wc rest u
            filters live (Reach-Kept k r) in
        returned hash_funcs htonl ntohl crc8 all real some_page after (sym d ∙ e)
    Reach-Kept k (requested {lost} {lost'} {s} {s'} cid qid wc rest r u live e same) = rw same (
        requested-Kept hash_funcs htonl ntohl crc8 all real some_page s lost cid qid wc rest s' u
          live e (Reach-Kept k r))
    Reach-Kept k (lent {lost} {s} fl_id r) =
        let before = Reach-Kept k r in
        let after =
          peer_page all (pages s.recvs) lost _ s.kv.pool before.pool before.owned real fl_id in
        record {
          tables = before.tables;
          pool = after.0;
          known = rw after.2 before.known;
          owned = after.1;
        }
    Reach-Kept k (evicted {lost} {s} {kv'} c r e) =
        let before = Reach-Kept k r in
        elim (evict-Keeps hash_funcs all real some_page (pages s.recvs) lost s.kv c before) [
          | inl tries ↦ absurd (cc)
          | inr (after, done, kept) ↦
              let same : after ≡ kv' = cc in
              subst (λ x. Kept hash_funcs all real some_page (record s { kv = x }) lost) same kept
        ]

    pub Reach-answers :
        {first s : Server} {lost : List ℕ}
        → Kept hash_funcs all real some_page first []
        → Reach first lost s
        → (cid qid : ℕ) (wc : Completion) (rest : List ℕ) → Uses wc.wr_id s.recvs rest
        → (qid ≡ s.num_data_qps → wc.wr_id ≡ no_value)
        → (wc.wr_id ≢ no_value → IsClientKey s (wc.key_at wc.wr_id))
        → ((mid : ℕ) → IsKey (wc.key_at mid))
        → (bit_unmask (ntohl wc.imm_data)).msg ≢ msg_write
        → ((s' : Server) × (dispatch hash_funcs htonl ntohl crc8 (with_recvs s rest) cid qid recv wc
              ≡ some (ok s'))
            × Kept hash_funcs all real some_page s' lost)
          × ((s' : Server) × (dispatch hash_funcs htonl ntohl crc8
                  (with_recvs s rest)
                  cid
                  qid
                  recv_rdma_with_imm
                  wc
                ≡ some (ok s'))
              × Kept hash_funcs all real some_page s' (add_lost wc.wr_id lost))
    unfolding dispatch
    Reach-answers {first} {s} {lost} k r cid qid wc rest u filters live all_live type =
        let before = Reach-Kept k r in
        let (t, e, after) =
          handled-Kept hash_funcs htonl ntohl crc8 all real some_page s lost cid wc rest u all_live
            (ground (arith, type)) before in
        (
          received-Kept hash_funcs htonl ntohl crc8 all real some_page s lost cid qid wc rest u
              filters live before,
          (t, ap (λ o. elim o [ none ↦ none | some x ↦ some (ok x) ]) e, after),
        )
