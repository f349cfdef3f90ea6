-- ===== src/Daemon/Pages/Tests.antt =====
-- Runs of a small server.
use cleancache_rdma.Prelude.{ℕ, ◌+◌, ◌<◌, length, ◌≡◌, refl, true, some, List, [], ◌∷◌, arith, ◌⊎◌}
use cleancache_rdma.Daemon.Pair.{ok}
use cleancache_rdma.Daemon.LockFreeStack.{no_addr}
use cleancache_rdma.Daemon.PerCpuPool.{PerCpuPool, slot_size, allocate_from_peer}
use cleancache_rdma.Daemon.LinearProbing.Placed.{IsKey}
use cleancache_rdma.Daemon.Longkey.{longkey_to_cid}
use cleancache_rdma.Daemon.Handlers.{Server, Moment, process_imm}
use cleancache_rdma.Daemon.Imm.{bit_unmask}
use cleancache_rdma.Daemon.Poller.{Completion, recv, recv_rdma_with_imm, dispatch}
use cleancache_rdma.Daemon.Pages.{count, count_entry, entries, pages}
use cleancache_rdma.Daemon.Pages.Messages.{Kept}
use cleancache_rdma.Daemon.Pages.Buffers.{newest, older, with_recvs, add_lost}
use cleancache_rdma.Daemon.Pages.Runs.{
  Reach, start, received, requested, lent, Reach-Kept, Reach-answers,
}
use cleancache_rdma.Daemon.Pages.Small.{
  by_key, same, first_page, second_page, third_page, all, first, real, some_page, first-Kept,
}
use cleancache_rdma.Daemon.Pages.Lost.{requested_loses}
use cleancache_rdma.Daemon.Pages.Posted.{pre_post_recvs-Posted}
use cleancache_rdma.Daemon.Setup.{pre_post_recv, pre_post_recvs_from, pre_post_recvs}
use cleancache_rdma.Daemon.LockFreeStack.Refine.{pop_value}
use cleancache_rdma.Daemon.PerCpuPool

abbrev moment : Moment
moment = record { now = 7; rand = λ i. 0; draw = 5; try_lock = λ i. true; cpu_usage = 80 }

-- a request for message number 2 of the type 7, to read
abbrev arrival : ℕ → Completion
arrival wr_id = record {
  opcode = recv;
  imm_data = 2555904;
  wr_id = wr_id;
  key_at = λ i. 9;
  raddr_at = λ i. 4096;
  moment = moment;
}

reads : (bit_unmask 2555904).msg ≡ 7
unfolding bit_unmask
reads = refl

nine-IsKey : IsKey 9
nine-IsKey = (omega arith, omega arith)

nine_client : longkey_to_cid 9 < 1
unfolding longkey_to_cid
nine_client = omega arith

abbrev Answered : (s : Server) (lost : List ℕ) (wr_id : ℕ) (rest : List ℕ) → Type 0
Answered s lost wr_id rest =
    ((s' : Server) × (dispatch by_key same same same (with_recvs s rest) 0 0 recv (arrival wr_id)
        ≡ some (ok s'))
      × Kept by_key all real some_page s' lost)
    × ((s' : Server) × (dispatch by_key same same same (with_recvs s rest) 0 0 recv_rdma_with_imm
            (arrival wr_id)
          ≡ some (ok s'))
        × Kept by_key all real some_page s' (add_lost wr_id lost))

-- a request of a type that the server does not know
abbrev odd : Completion
odd = record (arrival second_page) { imm_data = 0 }

-- It uses up the second page.
odd_request :
    Reach by_key same same same first (second_page ∷ []) (with_recvs first (first_page ∷ []))
unfolding dispatch process_imm bit_unmask
odd_request = requested 0 0 odd (first_page ∷ []) start (older newest) (λ mid. nine-IsKey) refl refl

-- The first page is stored.
stored : Answered (with_recvs first (first_page ∷ [])) (second_page ∷ []) first_page []
stored =
    Reach-answers by_key same same same all real some_page first-Kept odd_request 0 0
      (arrival first_page) [] newest (λ e. absurd (omega (arith, e)))
      (λ page. (nine-IsKey, nine_client)) (λ mid. nine-IsKey) (rw reads (omega arith))

Reach-Kept_example :
    Kept by_key all real some_page
      (record stored.0.0 {
        kv = record stored.0.0.kv { pool = (allocate_from_peer stored.0.0.kv.pool 0).1 };
      })
      (second_page ∷ [])
Reach-Kept_example = Reach-Kept by_key same same same all real some_page first-Kept (
    lent 0 (
      received 0 0 (arrival first_page) [] odd_request newest (λ e. absurd (omega (arith, e)))
        (λ page. (nine-IsKey, nine_client)) stored.0.1))

read_first : Answered first [] first_page (second_page ∷ [])
read_first =
    Reach-answers by_key same same same all real some_page first-Kept start 0 0 (arrival first_page)
      (second_page ∷ []) newest (λ e. absurd (omega (arith, e))) (λ page. (nine-IsKey, nine_client))
      (λ mid. nine-IsKey) (rw reads (omega arith))

requested_loses_example :
    (count first_page (pages read_first.1.0.recvs) ≡ 0)
    × ((fl : ℕ) → count first_page (read_first.1.0.kv.pool.freelist fl) ≡ 0)
    × ((shard key : ℕ)
        → count_entry first_page (entries by_key read_first.1.0.kv.hashes shard key) ≡ 0)
requested_loses_example =
    requested_loses by_key same same same all real some_page first-Kept start 0 0
      (arrival first_page) (second_page ∷ []) newest (λ mid. nine-IsKey) (omega arith)
      read_first.1.1

pre_post_recvs-Posted_example :
    (length (pre_post_recvs first 0 0 (λ i. 0)).recvs ≡ 4095 + 2)
    × (Kept by_key all real some_page (pre_post_recvs first 0 0 (λ i. 0)) []
        ⊎ ((0 < 1) × (0 < count no_addr (pre_post_recvs first 0 0 (λ i. 0)).recvs)))
pre_post_recvs-Posted_example =
    pre_post_recvs-Posted by_key all real some_page 0 0 [] first (λ i. 0) refl first-Kept

-- The pool has one page for the two buffers: the second is posted at -1.
posts_no_addr :
    (pre_post_recvs_from 2 first 0 0 (λ i. 0)).recvs
    ≡ no_addr ∷ third_page ∷ first_page ∷ second_page ∷ []
unfolding pre_post_recvs_from pre_post_recv PerCpuPool.allocate PerCpuPool.allocate_from
    PerCpuPool.get_free_addr pop_value
posts_no_addr = refl
