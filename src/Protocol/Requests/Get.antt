-- ===== src/Protocol/Requests/Get.antt =====
-- A page that is asked for, from `dcc_rdma_write_msg` to the code that it returns.
use cleancache_rdma.Prelude.{
  ℕ, ◌+◌, ◌*◌, ◌%◌, ◌^◌, ◌<◌, ◌≡◌, ◌≢◌, ◌∙◌, false, not, some, ◌∷◌, Array, ◌==◌, if◌then◌else◌,
  Bool-cases, inl, inr, refl, sym, ap, arith,
}
use cleancache_rdma.Prelude.Int.{ℤ, pos, negsuc}
use cleancache_rdma.Daemon.Pair.{no_value}
use cleancache_rdma.Daemon.Imm.{
  RdmaConfig, ImmFields, FitsImm, bit_mask, bit_unmask, bit_mask-sum, bit_unmask-bit_mask,
  key_meta_region, addr_meta_region, msg_read, msg_read_reply, tx_read_committed, tx_read_aborted,
}
use cleancache_rdma.Daemon.LinearProbing.Placed.{IsKey, IsPlaced}
use cleancache_rdma.Daemon.LinearProbing.View.{view}
use cleancache_rdma.Daemon.LinearProbing.Store.{value_of}
use cleancache_rdma.Daemon.Kv.Shards.{shard_of, Reads}
use cleancache_rdma.Daemon.Handlers.{Server, Moment, Reply, process_imm, process_get, post_recv}
use cleancache_rdma.Daemon.Handlers.Reads.{left, read_reply, process_get-answers}
use cleancache_rdma.Driver.Request.{
  write_words, write_msg_request, write_msg_ret, poll_recv_cq, ret_of_state, get_metadata_offset,
  tx_read_begin,
}
use cleancache_rdma.Protocol.Requests.{serve}

-- What the program relies on of `htonl` and `ntohl`.
pub record IsByteOrder (htonl ntohl : ℕ → ℕ) : Type 0 where
  pub round_trip : (x : ℕ) → x < 2 ^ 32 → ntohl (htonl x) ≡ x
  pub zero_fixed : htonl 0 ≡ 0

module _ (htonl ntohl : ℕ → ℕ) where
  pub received :
      (f : ImmFields)
      → IsByteOrder htonl ntohl
      → FitsImm f
      → bit_unmask (ntohl (htonl (bit_mask f.mid f.msg f.tx f.etc f.crc))) ≡ f
  received f order fits =
      rw
        (order.round_trip (bit_mask f.mid f.msg f.tx f.etc f.crc) (
          omega (
            arith,
            bit_mask-sum f fits,
            fits.mid_fits,
            fits.msg_fits,
            fits.tx_fits,
            fits.etc_fits,
            fits.crc_fits,
          )))
        (bit_unmask-bit_mask f fits)

  -- An answer is told from none: its immediate data is not 0.
  pub sent-nonzero :
      (f : ImmFields)
      → IsByteOrder htonl ntohl
      → FitsImm f
      → f.msg ≢ 0
      → htonl (bit_mask f.mid f.msg f.tx f.etc f.crc) ≢ 0
  unfolding bit_unmask
  sent-nonzero f order fits some_msg none =
      let back = received f order fits in
      let zero_back : ntohl 0 ≡ 0 =
        ap ntohl (sym order.zero_fixed) ∙ order.round_trip 0 (omega arith) in
      let empty : (bit_unmask (ntohl 0)).msg ≡ 0 = rw zero_back refl in
      some_msg (
        sym (ap (λ (g : ImmFields). g.msg) back)
        ∙ (ap (λ x. (bit_unmask (ntohl x)).msg) none ∙ empty))

  pub poll_recv_cq_lem :
      (f : ImmFields) (etc crc : ℕ)
      → IsByteOrder htonl ntohl
      → FitsImm f
      → f.msg ≢ 0
      → poll_recv_cq htonl ntohl (htonl (bit_mask f.mid f.msg f.tx f.etc f.crc)) etc crc
        ≡ record { ret = ret_of_state f.tx; etc = f.etc; crc = f.crc }
  unfolding poll_recv_cq
  poll_recv_cq_lem f etc crc order fits some_msg =
      let w = htonl (bit_mask f.mid f.msg f.tx f.etc f.crc) in
      let sent : (w == 0) ≡ false = ground (arith, sent-nonzero f order fits some_msg) in
      rw (sent, received f order fits) refl

-- The client's words are where the server looks for them.
get-words :
    (htonl ntohl : ℕ → ℕ) (c : RdmaConfig) (baseaddr queue_id key raddr : ℕ) (mem : Array ℕ)
    → let req = write_msg_request htonl ntohl c baseaddr queue_id key raddr in
      let written = write_words mem req.remote_addr req.words in
      (written (key_meta_region c baseaddr queue_id 0 msg_read) ≡ key)
      × (written (addr_meta_region c baseaddr queue_id 0) ≡ raddr)
unfolding write_msg_request write_words get_metadata_offset key_meta_region addr_meta_region
get-words htonl ntohl c baseaddr queue_id key raddr mem =
    let a = (baseaddr + c.metadata_size * queue_id) % 2 ^ 64 in
    let apart : (a + 8) % 2 ^ 64 ≢ a = λ e. absurd (omega (arith, e)) in
    (ground (arith, apart), ground (arith, apart))

abbrev get_request : ImmFields
get_request = record { mid = 0; msg = msg_read; tx = tx_read_begin; etc = 0; crc = 0 }

module _ (hash_funcs : ℕ → ℕ → ℕ) (htonl ntohl crc8 : ℕ → ℕ) where
  -- the code for a page at `value`, or none, when the page that arrived has the checksum `page_crc`
  abbrev pub get_code : ℕ → ℕ → ℤ
  get_code value page_crc =
      if value == no_value then pos 1 else if page_crc == crc8 value then pos 0 else negsuc 3

  -- the fields of the server's reply
  abbrev pub read_fields : ℕ → ImmFields
  read_fields value = record {
    mid = 0;
    msg = msg_read_reply;
    tx = if not (value == no_value) then tx_read_committed else tx_read_aborted;
    etc = 0;
    crc = if not (value == no_value) then crc8 value else 0;
  }

  read_fields-FitsImm : (value : ℕ) → crc8 value < 2 ^ 8 → FitsImm (read_fields value)
  read_fields-FitsImm value small = elim (Bool-cases (value == no_value)) [
    | inl e ↦ rw e (record {
      mid_fits = omega arith;
      msg_fits = omega arith;
      tx_fits = omega arith;
      etc_fits = omega arith;
      crc_fits = omega arith;
    })
    | inr e ↦ rw e (record {
      mid_fits = omega arith;
      msg_fits = omega arith;
      tx_fits = omega arith;
      etc_fits = omega arith;
      crc_fits = small;
    })
  ]

  write_msg_ret_lem :
      (value raddr crc page_crc : ℕ)
      → IsByteOrder htonl ntohl
      → crc8 value < 2 ^ 8
      → write_msg_ret htonl ntohl
          (read_reply hash_funcs htonl ntohl crc8 0 value raddr).imm_data
          crc
          page_crc
        ≡ get_code value page_crc
  unfolding write_msg_ret ret_of_state
  write_msg_ret_lem value raddr crc page_crc order small =
      let polled =
        poll_recv_cq_lem htonl ntohl (read_fields value) 0 crc order
          (read_fields-FitsImm value small) (λ e. cc) in
      elim (Bool-cases (value == no_value)) [
        | inl z ↦ rw polled (rw z refl)
        | inr z ↦ rw polled (rw z (ground (arith, small)))
      ]

  request_seen :
      (c : RdmaConfig) (baseaddr qid key raddr : ℕ)
      → IsByteOrder htonl ntohl
      → bit_unmask (ntohl (write_msg_request htonl ntohl c baseaddr qid key raddr).imm_data)
        ≡ get_request
  unfolding write_msg_request
  request_seen c baseaddr qid key raddr order = received htonl ntohl get_request order (record {
    mid_fits = omega arith;
    msg_fits = omega arith;
    tx_fits = omega arith;
    etc_fits = omega arith;
    crc_fits = omega arith;
  })

  -- What a get comes to: the server's answer names the page of the key, and the code that the client
  -- returns for it.
  pub record Got (c : RdmaConfig) (s : Server) (cid qid baseaddr key raddr : ℕ) (mem : Array ℕ)
      (m : Moment) : Type 0 where
    pub after : Server
    pub reply : Reply
    pub served :
        serve hash_funcs htonl ntohl crc8 c s cid qid baseaddr mem
          (write_msg_request htonl ntohl c baseaddr qid key raddr)
          m
        ≡ some after
    pub replied : after.replies ≡ reply ∷ s.replies
    pub to_page : reply.raddr ≡ raddr
    pub page : reply.value ≡ value_of (view hash_funcs (shard_of hash_funcs s.kv key) key)
    pub code :
        (crc page_crc : ℕ)
        → write_msg_ret htonl ntohl reply.imm_data crc page_crc ≡ get_code reply.value page_crc
    pub tables : Reads hash_funcs s.kv after.kv key (left hash_funcs s.exclusive_policy s.kv key)

  -- A get, from the client's post to the code that its caller sees, at a server whose shard of the key
  -- is well placed: the server reads the key and the address that the client wrote, and sends one
  -- answer, to that address, with the page of the key. The client returns 1 when the server has no
  -- page, 0 when the page that arrived has the checksum of the server's, and -4 when it has another.
  -- At the server an exclusive get removes the key, and another leaves every entry.
  pub write_msg-Got :
      (c : RdmaConfig) (s : Server) (cid qid baseaddr key raddr : ℕ) (mem : Array ℕ) (m : Moment)
      → IsByteOrder htonl ntohl
      → ((value : ℕ) → crc8 value < 2 ^ 8)
      → IsPlaced hash_funcs (shard_of hash_funcs s.kv key)
      → IsKey key
      → Got c s cid qid baseaddr key raddr mem m
  unfolding serve process_imm
  write_msg-Got c s cid qid baseaddr key raddr mem m order small placed is_key =
      let words = get-words htonl ntohl c baseaddr qid key raddr mem in
      let answer =
        process_get-answers hash_funcs htonl ntohl crc8 (post_recv s no_value) cid 0 key raddr m
          placed is_key in
      let value = value_of (view hash_funcs (shard_of hash_funcs s.kv key) key) in
      record {
        after = process_get hash_funcs htonl ntohl crc8 (post_recv s no_value) cid 0 key raddr m;
        reply = read_reply hash_funcs htonl ntohl crc8 0 value raddr;
        served = rw (request_seen c baseaddr qid key raddr order, words.0, words.1) refl;
        replied = answer.0;
        to_page = refl;
        page = refl;
        code = λ crc page_crc. write_msg_ret_lem value raddr crc page_crc order (small value);
        tables = answer.1;
      }
