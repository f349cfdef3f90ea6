-- ===== src/Daemon/Pages/Lost.antt =====
-- The pages of the buffers that requests use up: `process_imm` does not look at `wr_id`, and posts a
-- buffer that is no page.
use cleancache_rdma.Prelude.{ℕ, ◌≡◌, ◌≢◌, inl, inr, refl, List, [], ◌∷◌, some, arith, ◌<◌}
use cleancache_rdma.Daemon.Pair.{no_value, ok}
use cleancache_rdma.Daemon.LockFreeStack.{no_addr}
use cleancache_rdma.Daemon.LinearProbing.Placed.{IsKey}
use cleancache_rdma.Daemon.Handlers.{Server}
use cleancache_rdma.Daemon.Poller.{Completion, recv_rdma_with_imm, dispatch}
use cleancache_rdma.Daemon.Pages.{
  Holding, Owned, count, count_entry, one, entries, pages, Place, in_post, in_hand, in_free, under,
  amount, at,
}
use cleancache_rdma.Daemon.Pages.Moves.{mk}
use cleancache_rdma.Daemon.Pages.Messages.{Kept}
use cleancache_rdma.Daemon.Pages.Runs.{Reach, requested, Reach-Kept}
use cleancache_rdma.Daemon.Pages.Buffers.{Uses, with_recvs}

one_refl : (a : ℕ) → one a a ≡ 1
one_refl a = ground arith

-- A page in hand is nowhere else.
elsewhere :
    (all : List ℕ) (h : Holding) (a : ℕ)
    → Owned all h
    → 0 < count a h.hand
    → (p : Place) → at in_hand p ≡ 0
    → amount h a p ≡ 0
elsewhere all h a o held p apart = elim (o a) [
  | inl (c, gone) ↦ gone p
  | inr (c, in_post, there) ↦ absurd (omega (arith, there in_hand))
  | inr (c, in_hand, there) ↦ omega (arith, there p)
  | inr (c, in_free i, there) ↦ absurd (omega (arith, there in_hand))
  | inr (c, under s k, there) ↦ absurd (omega (arith, there in_hand))
]

module _ (hash_funcs : ℕ → ℕ → ℕ) (htonl ntohl crc8 : ℕ → ℕ) (all : List ℕ)
    (real : count no_addr all ≡ 0) (some_page : count no_value all ≡ 0) where
  -- In a run that begins with each page in one place and sound tables and pool, a request that used
  -- up the buffer of a page, and that `dispatch` answered, leaves that page out of reach: it is not
  -- posted, on no free list, and stored under no key. The keys that the client wrote mark no empty
  -- pair.
  pub requested_loses :
      {first s s' : Server} {lost : List ℕ}
      → Kept hash_funcs all real some_page first []
      → Reach hash_funcs htonl ntohl crc8 first lost s
      → (cid qid : ℕ) (wc : Completion) (rest : List ℕ) → Uses wc.wr_id s.recvs rest
      → ((mid : ℕ) → IsKey (wc.key_at mid))
      → wc.wr_id ≢ no_value
      → dispatch hash_funcs htonl ntohl crc8 (with_recvs s rest) cid qid recv_rdma_with_imm wc
        ≡ some (ok s')
      → (count wc.wr_id (pages s'.recvs) ≡ 0)
        × ((fl : ℕ) → count wc.wr_id (s'.kv.pool.freelist fl) ≡ 0)
        × ((shard key : ℕ) → count_entry wc.wr_id (entries hash_funcs s'.kv.hashes shard key) ≡ 0)
  requested_loses {first} {s} {s'} {lost} k r cid qid wc rest u live page e =
      let kept =
        Reach-Kept hash_funcs htonl ntohl crc8 all real some_page k
          (requested {lost' = wc.wr_id ∷ lost} cid qid wc rest r u live e (ground (arith, page))) in
      let away =
        elsewhere all
          (mk (pages s'.recvs) (wc.wr_id ∷ lost) s'.kv.pool.freelist
            (entries hash_funcs s'.kv.hashes))
          wc.wr_id kept.owned (omega (arith, one_refl wc.wr_id)) in
      (away in_post refl, λ fl. away (in_free fl) refl, λ shard key. away (under shard key) refl)
