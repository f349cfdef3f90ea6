-- ===== src/Daemon/Pages/Dispatch.antt =====
-- What `dispatch` does with the page of a completion.
use cleancache_rdma.Prelude.{
  ℕ, ◌≡◌, ◌≢◌, inl, inr, refl, false, true, sym, ap, ◌∙◌, subst, List, none, some, ◌==◌, ◌&&◌,
  arith, Bool-cases, ==_iff,
}
use cleancache_rdma.Daemon.Pair.{no_value, ok}
use cleancache_rdma.Daemon.LockFreeStack.{no_addr}
use cleancache_rdma.Daemon.LinearProbing.Placed.{IsKey}
use cleancache_rdma.Daemon.Handlers.{
  Server, process_imm, process_recv, post_recv, filter_update_begin,
}
use cleancache_rdma.Daemon.Imm.{bit_unmask, msg_write, msg_read, msg_inv_page}
use cleancache_rdma.Daemon.Poller.{Completion, recv, recv_rdma_with_imm, dispatch}
use cleancache_rdma.Daemon.Pages.{count}
use cleancache_rdma.Daemon.Pages.Buffers.{
  Uses, IsClientKey, with_recvs, add_lost, Uses-Kept, none_Kept, used_Kept,
}
use cleancache_rdma.Daemon.Pages.Messages.{Kept, put-Kept, get-Kept, invalidate-Kept}

module _ (hash_funcs : ℕ → ℕ → ℕ) (htonl ntohl crc8 : ℕ → ℕ) (all : List ℕ)
    (real : count no_addr all ≡ 0) (some_page : count no_value all ≡ 0) where
  pub returned :
      {s s' : Server} {lost : List ℕ}
      → Kept hash_funcs all real some_page s lost
      → some (ok s) ≡ some (ok s')
      → Kept hash_funcs all real some_page s' lost
  returned {s} {s'} {lost} k e =
      let same : s ≡ s' = cc in
      subst (λ (x : Server). Kept hash_funcs all real some_page x lost) same k

  -- A message is taken in.
  pub received-Kept :
      (s : Server) (lost : List ℕ) (cid qid : ℕ) (wc : Completion) (rest : List ℕ)
      → Uses wc.wr_id s.recvs rest
      → (qid ≡ s.num_data_qps → wc.wr_id ≡ no_value)
      → (wc.wr_id ≢ no_value → IsClientKey s (wc.key_at wc.wr_id))
      → Kept hash_funcs all real some_page s lost
      → (s' : Server) × (dispatch hash_funcs htonl ntohl crc8 (with_recvs s rest) cid qid recv wc
          ≡ some (ok s'))
        × Kept hash_funcs all real some_page s' lost
  unfolding dispatch process_recv
  received-Kept s lost cid qid wc rest u filters live k =
      elim (Bool-cases (qid == s.num_data_qps && wc.imm_data == filter_update_begin)) [
        | inl f ↦
            let null = filters (ground arith) in
            rw f (
              _,
              refl,
              none_Kept hash_funcs all real some_page s lost rest
                  (subst (λ y. Uses y s.recvs rest) null u) k,
            )
        | inr f ↦ elim (Bool-cases (wc.wr_id == no_value)) [
          | inl z ↦
              rw (f, z)
                (
                  _,
                  refl,
                  none_Kept hash_funcs all real some_page s lost rest
                      (subst (λ y. Uses y s.recvs rest) ((==_iff wc.wr_id no_value).0 z) u) k,
                )
          | inr z ↦
              let page : wc.wr_id ≢ no_value = ground arith in
              rw (f, z)
                (put-Kept hash_funcs all real some_page htonl ntohl crc8 (with_recvs s rest) cid _
                  wc.wr_id (wc.key_at wc.wr_id) wc.moment lost (live page).0 (live page).1
                  (Uses-Kept hash_funcs all real some_page s lost wc.wr_id rest page u k))
        ]
      ]

  -- A request is answered, unless it is of the type that the server sends.
  pub handled-Kept :
      (s : Server) (lost : List ℕ) (cid : ℕ) (wc : Completion) (rest : List ℕ)
      → Uses wc.wr_id s.recvs rest
      → ((mid : ℕ) → IsKey (wc.key_at mid))
      → (bit_unmask (ntohl wc.imm_data)).msg == msg_write ≡ false
      → Kept hash_funcs all real some_page s lost
      → (s' : Server) × (process_imm hash_funcs htonl ntohl crc8
            (with_recvs s rest)
            cid
            wc.imm_data
            wc.key_at
            wc.raddr_at
            wc.moment
          ≡ some s')
        × Kept hash_funcs all real some_page s' (add_lost wc.wr_id lost)
  unfolding process_imm
  handled-Kept s lost cid wc rest u live w k =
      let f = bit_unmask (ntohl wc.imm_data) in
      let posted = used_Kept hash_funcs all real some_page s lost wc.wr_id rest u k in
      elim (Bool-cases (f.msg == msg_read)) [
        | inl g ↦
            rw (w, g)
              (
                _,
                refl,
                get-Kept hash_funcs all real some_page htonl ntohl crc8
                    (post_recv (with_recvs s rest) no_value) cid f.mid (wc.key_at f.mid)
                    (wc.raddr_at f.mid) wc.moment _ (live f.mid) posted,
              )
        | inr g ↦ elim (Bool-cases (f.msg == msg_inv_page)) [
          | inl v ↦
              rw (w, g, v)
                (
                  _,
                  refl,
                  invalidate-Kept hash_funcs all real some_page htonl ntohl crc8
                      (post_recv (with_recvs s rest) no_value) cid f.mid (wc.key_at f.mid) wc.moment
                      _ (live f.mid) posted,
                )
          | inr v ↦ rw (w, g, v) (_, refl, posted)
        ]
      ]

  refuses_write :
      (s : Server) (cid : ℕ) (wc : Completion)
      → (bit_unmask (ntohl wc.imm_data)).msg == msg_write ≡ true
      → process_imm hash_funcs htonl ntohl crc8 s cid wc.imm_data wc.key_at wc.raddr_at wc.moment
        ≡ none
  unfolding process_imm
  refuses_write s cid wc w = rw w refl

  pub requested-Kept :
      (s : Server) (lost : List ℕ) (cid qid : ℕ) (wc : Completion) (rest : List ℕ) (s' : Server)
      → Uses wc.wr_id s.recvs rest
      → ((mid : ℕ) → IsKey (wc.key_at mid))
      → dispatch hash_funcs htonl ntohl crc8 (with_recvs s rest) cid qid recv_rdma_with_imm wc
        ≡ some (ok s')
      → Kept hash_funcs all real some_page s lost
      → Kept hash_funcs all real some_page s' (add_lost wc.wr_id lost)
  unfolding dispatch
  requested-Kept s lost cid qid wc rest s' u live =
      elim (Bool-cases ((bit_unmask (ntohl wc.imm_data)).msg == msg_write)) [
        | inl w ↦ rw (refuses_write (with_recvs s rest) cid wc w, dispatch) (λ d k. absurd (cc))
        | inr w ↦ λ d k.
            let (t, e, after) = handled-Kept s lost cid wc rest u live w k in
            returned after (sym (ap (λ o. elim o [ none ↦ none | some x ↦ some (ok x) ]) e) ∙ d)
      ]
