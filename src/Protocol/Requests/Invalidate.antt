-- ===== src/Protocol/Requests/Invalidate.antt =====
-- A page that is invalidated, from `dcc_rdma_write_msg2` to the code that it returns.
use cleancache_rdma.Prelude.{
  ℕ, ◌+◌, ◌-◌, ◌*◌, ◌%◌, ◌^◌, ◌<◌, ◌≤◌, ◌≡◌, ◌⊎◌, true, false, not, some, ◌∷◌, Array, ◌==◌, ltb,
  if◌then◌else◌, Bool-cases, inl, inr, refl, arith, lt→ltb,
}
use native.Mathlib.Decide.{dec_lt}
use cleancache_rdma.Prelude.Int.{pos}
use cleancache_rdma.Daemon.Pair.{no_value}
use cleancache_rdma.Daemon.Imm.{
  RdmaConfig, ImmFields, FitsImm, bit_mask, bit_unmask, key_meta_region, msg_inv_page,
  msg_inv_page_reply, tx_inv_page_commited, tx_inv_page_aborted,
}
use cleancache_rdma.Daemon.LinearProbing.Placed.{IsKey, IsPlaced}
use cleancache_rdma.Daemon.LinearProbing.View.{view}
use cleancache_rdma.Daemon.LinearProbing.Store.{value_of}
use cleancache_rdma.Daemon.Kv
use cleancache_rdma.Daemon.Kv.Shards.{shard_of, Reads}
use cleancache_rdma.Daemon.Kv.Removal.{remove-Removed}
use cleancache_rdma.Daemon.Handlers.{
  Server, Moment, Reply, process_imm, process_invalidate_page, post_recv,
}
use cleancache_rdma.Daemon.Handlers.Reads.{left, another_pool}
use cleancache_rdma.Driver.Request.{
  write_words, write_msg2_request, write_msg2_ret, ret_of_state, get_metadata_offset,
  tx_inv_page_begin,
}
use cleancache_rdma.Protocol.Requests.{serve}
use cleancache_rdma.Protocol.Requests.Get.{IsByteOrder, received, poll_recv_cq_lem}

-- The client's word is where the server looks for it.
inv-word :
    (htonl ntohl : ℕ → ℕ) (c : RdmaConfig) (baseaddr queue_id msg_id key : ℕ) (mem : Array ℕ)
    → let req = write_msg2_request htonl ntohl c baseaddr queue_id msg_id key in
      write_words mem req.remote_addr req.words
        (key_meta_region c baseaddr queue_id msg_id msg_inv_page)
      ≡ key
unfolding write_msg2_request write_words get_metadata_offset key_meta_region
inv-word htonl ntohl c baseaddr queue_id msg_id key mem =
    let same : (baseaddr + (c.metadata_size * queue_id + c.get_metadata_size + msg_id * 8)) % 2 ^ 64
        ≡ (baseaddr + c.metadata_size * queue_id + c.get_metadata_size + msg_id * 8) % 2 ^ 64 =
      omega arith in
    rw same (ground arith)

abbrev inv_request : ℕ → ImmFields
inv_request msg_id = record {
  mid = msg_id;
  msg = msg_inv_page;
  tx = tx_inv_page_begin;
  etc = 0;
  crc = 0;
}

-- the fields of the server's reply for a page at `value`
abbrev pub inv_fields : ℕ → ℕ → ImmFields
inv_fields mid value = record {
  mid = mid;
  msg = msg_inv_page_reply;
  tx = if not (value == no_value) then tx_inv_page_commited else tx_inv_page_aborted;
  etc = 0;
  crc = 0;
}

inv_fields-FitsImm : (mid value : ℕ) → mid < 2 ^ 12 → FitsImm (inv_fields mid value)
inv_fields-FitsImm mid value small = record {
  mid_fits = small;
  msg_fits = omega arith;
  tx_fits = ground arith;
  etc_fits = omega arith;
  crc_fits = omega arith;
}

module _ (hash_funcs : ℕ → ℕ → ℕ) (htonl ntohl crc8 : ℕ → ℕ) where
  abbrev pub inv_reply : ℕ → ℕ → Reply
  inv_reply mid value = record {
    imm_data = htonl (
        bit_mask mid msg_inv_page_reply
          (if not (value == no_value) then tx_inv_page_commited else tx_inv_page_aborted) 0 0);
    value = no_value;
    raddr = 0;
  }

  -- what the server makes of it
  process_invalidate_page_lem :
      (s : Server) (cid mid key : ℕ) (m : Moment)
      → IsPlaced hash_funcs (shard_of hash_funcs s.kv key)
      → IsKey key
      → ((process_invalidate_page hash_funcs htonl ntohl crc8 s cid mid key m).replies ≡ (
          if mid == s.num_msgs - 1
          then inv_reply mid (value_of (view hash_funcs (shard_of hash_funcs s.kv key) key))
            ∷ s.replies
          else s.replies))
        × Reads hash_funcs s.kv
            (process_invalidate_page hash_funcs htonl ntohl crc8 s cid mid key m).kv
            key
            (left hash_funcs true s.kv key)
  unfolding process_invalidate_page
  process_invalidate_page_lem s cid mid key m p k =
      let r = remove-Removed hash_funcs s.kv key cid p k in
      elim (Bool-cases ((Kv.remove hash_funcs s.kv key cid).0 == no_value)) [
        | inl z ↦ elim (Bool-cases (mid == s.num_msgs - 1)) [
          | inl e ↦ rw (z, e) (rw (← r.answer, z) refl, r.tables)
          | inr e ↦ rw (z, e) (refl, r.tables)
        ]
        | inr z ↦ elim (Bool-cases (mid == s.num_msgs - 1)) [
          | inl e ↦
              rw (z, e) (rw (← r.answer, z) refl, another_pool hash_funcs _ _ key _ _ r.tables)
          | inr e ↦ rw (z, e) (refl, another_pool hash_funcs _ _ key _ _ r.tables)
        ]
      ]

  request_seen :
      (c : RdmaConfig) (baseaddr qid msg_id key : ℕ)
      → IsByteOrder htonl ntohl
      → msg_id < 2 ^ 12
      → bit_unmask (ntohl (write_msg2_request htonl ntohl c baseaddr qid msg_id key).imm_data)
        ≡ inv_request msg_id
  unfolding write_msg2_request
  request_seen c baseaddr qid msg_id key order small =
      received htonl ntohl (inv_request msg_id) order (record {
        mid_fits = small;
        msg_fits = omega arith;
        tx_fits = omega arith;
        etc_fits = omega arith;
        crc_fits = omega arith;
      })

  write_msg2_ret_lem :
      (c : RdmaConfig) (mid value : ℕ)
      → IsByteOrder htonl ntohl
      → mid < 2 ^ 12
      → ltb mid (c.num_msgs - 1) ≡ false
      → write_msg2_ret htonl ntohl c mid (inv_reply mid value).imm_data
        ≡ (if value == no_value then pos 1 else pos 0)
  unfolding write_msg2_ret ret_of_state
  write_msg2_ret_lem c mid value order small last =
      let polled =
        poll_recv_cq_lem htonl ntohl (inv_fields mid value) 0 0 order
          (inv_fields-FitsImm mid value small) (λ e. cc) in
      elim (Bool-cases (value == no_value)) [
        | inl z ↦ rw (last, polled) (rw z refl)
        | inr z ↦ rw (last, polled) (rw z refl)
      ]

  -- What the client and the server make of the message number: the last one is answered.
  abbrev pub Answered : RdmaConfig → Server → Server → ℕ → ℕ → ℕ → Type 0
  Answered c s after msg_id value imm_data =
      ((msg_id ≡ c.num_msgs - 1)
        × (after.replies ≡ inv_reply msg_id value ∷ s.replies)
        × (write_msg2_ret htonl ntohl c msg_id (inv_reply msg_id value).imm_data
            ≡ (if value == no_value then pos 1 else pos 0)))
      ⊎ ((msg_id < c.num_msgs - 1)
          × (after.replies ≡ s.replies)
          × (write_msg2_ret htonl ntohl c msg_id imm_data ≡ pos 0))

  answered :
      (c : RdmaConfig) (s after : Server) (msg_id value imm_data : ℕ)
      → IsByteOrder htonl ntohl
      → s.num_msgs ≡ c.num_msgs
      → c.num_msgs ≤ 2 ^ 12
      → msg_id < c.num_msgs
      → after.replies
        ≡ (if msg_id == s.num_msgs - 1 then inv_reply msg_id value ∷ s.replies else s.replies)
      → Answered c s after msg_id value imm_data
  unfolding write_msg2_ret
  answered c s after msg_id value imm_data order same few below sent =
      elim (dec_lt msg_id (c.num_msgs - 1)) [
        | yes early ↦ inr (
          early,
          ground (arith, sent, same, early),
          rw (lt→ltb msg_id (c.num_msgs - 1) early) refl,
        )
        | no late ↦
            let e : msg_id ≡ c.num_msgs - 1 = omega (arith, late, below) in
            inl (
              e,
              ground (arith, sent, same, e),
              write_msg2_ret_lem c msg_id value order (omega (arith, few, below))
                  (ground (arith, late)),
            )
      ]

  -- An invalidation, from the client's post to the code that its caller sees, with a message number
  -- below `num_msgs`, which both sides have and which fits 12 bits, at a server whose shard of the key
  -- is well placed: the server reads the key that the client wrote, takes it and no other out of its
  -- tables, and answers the last number only. The client then returns 0 when the server had a page
  -- for the key of this last message and 1 when it had none; for every other number it returns 0.
  pub write_msg2-Answered :
      (c : RdmaConfig) (s : Server) (cid qid baseaddr msg_id key imm_data : ℕ) (mem : Array ℕ)
      (m : Moment)
      → IsByteOrder htonl ntohl
      → s.num_msgs ≡ c.num_msgs
      → c.num_msgs ≤ 2 ^ 12
      → msg_id < c.num_msgs
      → IsPlaced hash_funcs (shard_of hash_funcs s.kv key)
      → IsKey key
      → (after : Server) × (serve hash_funcs htonl ntohl crc8 c s cid qid baseaddr mem
            (write_msg2_request htonl ntohl c baseaddr qid msg_id key)
            m
          ≡ some after)
        × Reads hash_funcs s.kv after.kv key (left hash_funcs true s.kv key)
        × Answered c s after msg_id
            (value_of (view hash_funcs (shard_of hash_funcs s.kv key) key))
            imm_data
  unfolding serve process_imm
  write_msg2-Answered c s cid qid baseaddr msg_id key imm_data mem m order same few below placed
        is_key =
      let s' = post_recv s no_value in
      let after = process_invalidate_page hash_funcs htonl ntohl crc8 s' cid msg_id key m in
      let made = process_invalidate_page_lem s' cid msg_id key m placed is_key in
      (
        after,
        rw
            (
              request_seen c baseaddr qid msg_id key order (omega (arith, few, below)),
              inv-word htonl ntohl c baseaddr qid msg_id key mem,
            )
            refl,
        made.1,
        answered c s after msg_id _ imm_data order same few below made.0,
      )
