-- ===== src/Daemon/Handlers.antt =====
-- daemon/rdma.cpp: the handlers of a client's messages. `s.recvs` are the buffers that are posted
-- to receive, the newest first, and `s.replies` the replies that are sent. The key and the address
-- that a handler reads from the page or the metadata that the client wrote are arguments. `htonl`,
-- `ntohl` and `crc8 value`, the checksum of the page at `value`, are other projects' code. A post to
-- the network card that fails ends the program, and is left out.
pub mod Answers
pub mod Reads
mod Tests
use cleancache_rdma.Prelude.{
  ℕ, suc, ◌+◌, ◌-◌, Bool, true, false, Option, none, some, List, ◌∷◌, ltb, ◌==◌, if◌then◌else◌,
  ◌&&◌, not,
}
use cleancache_rdma.Daemon.Pair.{invalid, no_value, Error, Run, ok, throw}
use cleancache_rdma.Daemon.Imm.{
  bit_mask, bit_unmask, ImmFields, msg_write, msg_write_reply, msg_read, msg_read_reply,
  msg_inv_page, msg_inv_page_reply, tx_write_committed, tx_read_committed, tx_read_aborted,
  tx_inv_page_commited, tx_inv_page_aborted,
}
use cleancache_rdma.Daemon.CountingBloomFilter.{to_ordinary_bf}
use cleancache_rdma.Daemon.Kv.{Kv}
use cleancache_rdma.Daemon.Kv
use cleancache_rdma.Prelude.{update}

pub record Reply : Type 0 where
  pub imm_data : ℕ
  pub value : ℕ
  pub raddr : ℕ

pub record Server : Type 0 where
  pub exclusive_policy : Bool
  pub num_msgs : ℕ
  pub num_data_qps : ℕ
  pub kv : Kv
  pub recvs : List ℕ
  pub replies : List Reply
  -- the clients to which a bit filter was sent
  pub sent_filters : List ℕ

abbrev pub post_recv : Server → ℕ → Server
post_recv s addr = record s { recvs = addr ∷ s.recvs }

abbrev pub send_reply : Server → ℕ → ℕ → ℕ → Server
send_reply s imm_data value raddr = record s {
  replies = record { imm_data = imm_data; value = value; raddr = raddr } ∷ s.replies;
}

-- FILTER_UPDATE_BEGIN
abbrev pub filter_update_begin : ℕ
filter_update_begin = 100

abbrev pub send_bf : Server → ℕ → Server
send_bf s cid = record s { sent_filters = cid ∷ s.sent_filters }

-- what a handler meets by chance: the clock, the pool's draws, the locks and the processor's load
pub record Moment : Type 0 where
  pub now : ℕ
  pub rand : ℕ → ℕ
  pub draw : ℕ
  pub try_lock : ℕ → Bool
  pub cpu_usage : ℕ

module _ (hash_funcs : ℕ → ℕ → ℕ) (htonl ntohl crc8 : ℕ → ℕ) where
  -- from the label out of `process_put` on
  unfoldable pub reply_put : Server → ℕ → ℕ → Server
  reply_put s mid cpu_usage =
      let etc = if ltb 50 cpu_usage then 1 else 0 in
      if mid == s.num_msgs - 1
      then send_reply s (htonl (bit_mask mid msg_write_reply tx_write_committed etc 0)) no_value 0
      else s

  -- `kv->Insert` is followed for its two rounds.
  unfoldable pub process_put : Server → ℕ → ℕ → ℕ → ℕ → Moment → Option (Run Server)
  process_put s cid mid recv_addr key m =
      let (value, kv) = Kv.allocate s.kv cid m.draw in
      if value == invalid
      then some (ok (reply_put (post_recv (record s { kv = kv }) recv_addr) mid m.cpu_usage))
      else elim (Kv.insert hash_funcs 2 kv key recv_addr cid m.rand m.now m.try_lock) [
        | none ↦ none
        | some (throw e) ↦ some (throw e)
        | some (ok kv') ↦
            some (ok (reply_put (post_recv (record s { kv = kv' }) value) mid m.cpu_usage))
      ]

  -- the value that `process_get` finds, under either policy
  unfoldable pub look_up : Server → ℕ → ℕ → Moment → ℕ × Kv
  look_up s key cid m =
      if s.exclusive_policy
      then Kv.remove hash_funcs s.kv key cid
      else Kv.get_with_flag hash_funcs s.kv key true m.now

  -- what `process_get` does with the value after its reply
  unfoldable pub release : Server → ℕ → ℕ → ℕ → Moment → Server
  release s key value cid m =
      if value == no_value
      then s
      else if s.exclusive_policy
      then record s { kv = Kv.free s.kv value cid m.draw }
      else record s { kv = (Kv.get_with_flag hash_funcs s.kv key false m.now).1 }

  unfoldable pub process_get : Server → ℕ → ℕ → ℕ → ℕ → Moment → Server
  process_get s cid mid key raddr m =
      let (value, kv) = look_up s key cid m in
      let found = not (value == no_value) in
      let imm_data = htonl (
        bit_mask mid msg_read_reply (if found then tx_read_committed else tx_read_aborted) 0
          (if found then crc8 value else 0)) in
      release (send_reply (record s { kv = kv }) imm_data value raddr) key value cid m

  unfoldable pub process_invalidate_page : Server → ℕ → ℕ → ℕ → Moment → Server
  process_invalidate_page s cid mid key m =
      let (value, kv) = Kv.remove hash_funcs s.kv key cid in
      let found = not (value == no_value) in
      let s' = record s { kv = if found then Kv.free kv value cid m.draw else kv } in
      if mid == s.num_msgs - 1
      then send_reply s'
          (htonl (
            bit_mask mid msg_inv_page_reply
              (if found then tx_inv_page_commited else tx_inv_page_aborted) 0 0))
          no_value 0
      else s'

  -- `process_imm`: none where an assertion fails. `key_at` and `raddr_at` read the metadata of a
  -- message. A message of another type is reported and dropped.
  unfoldable pub process_imm : Server → ℕ → ℕ → (ℕ → ℕ) → (ℕ → ℕ) → Moment → Option Server
  process_imm s cid imm_data key_at raddr_at m =
      let f = bit_unmask (ntohl imm_data) in
      if f.msg == msg_write
      then none
      else if f.msg == msg_read
      then some (process_get (post_recv s no_value) cid f.mid (key_at f.mid) (raddr_at f.mid) m)
      else if f.msg == msg_inv_page
      then some (process_invalidate_page (post_recv s no_value) cid f.mid (key_at f.mid) m)
      else some s

  -- `process_recv` on queue `qid`, of a buffer at `wr_id` or of none; `key_at` reads the key behind
  -- the page.
  unfoldable pub process_recv : Server → ℕ → ℕ → ℕ → ℕ → (ℕ → ℕ) → Moment → Option (Run Server)
  process_recv s cid qid wr_id imm_data key_at m =
      let cbf = to_ordinary_bf (s.kv.cbfs cid) in
      if qid == s.num_data_qps && imm_data == filter_update_begin
      then some (
          ok (
            post_recv
              (send_bf (record s { kv = record s.kv { cbfs = update s.kv.cbfs cid cbf } }) cid)
              no_value))
      else if wr_id == no_value
      then some (ok s)
      else process_put s cid (bit_unmask (ntohl imm_data)).mid wr_id (key_at wr_id) m
