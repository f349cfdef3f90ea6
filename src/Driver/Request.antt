-- ===== src/Driver/Request.antt =====
-- driver/rdma.c and driver/rdma.h: the requests that ask for a page or invalidate one, and what the
-- client makes of the answers. `htonl` and `ntohl` are other projects' code, and so is the checksum
-- of the page that arrived, which is an argument. A post to the network card returns 0. The answer
-- to a request is polled for without end, so it is an argument too.
pub mod Layout
mod Tests
use cleancache_rdma.Prelude.{
  ℕ, ◌+◌, ◌-◌, ◌*◌, ◌%◌, ◌^◌, List, [], ◌∷◌, Array, update, ltb, ◌==◌, ◌&&◌, ◌||◌, not,
  if◌then◌else◌,
}
use cleancache_rdma.Prelude.Int.{ℤ, pos, negsuc, is_nonzero}
use cleancache_rdma.Daemon.Imm.{
  RdmaConfig, bit_mask, bit_unmask, msg_read, msg_inv_page, tx_write_committed, tx_read_committed,
  tx_read_aborted, tx_inv_page_commited, tx_inv_page_aborted,
}

abbrev pub tx_read_begin : ℕ
tx_read_begin = 5

abbrev pub tx_inv_page_begin : ℕ
tx_inv_page_begin = 9

abbrev pub num_get_qps : ℕ
num_get_qps = 6

-- `dcc_rdma_set_default_config`, the part that lays out the metadata
unfoldable pub default_config : RdmaConfig
default_config =
    let num_msgs : ℕ = 512 in
    let get_metadata_size : ℕ = 8 * 2 in
    let inv_metadata_size : ℕ = 8 * num_msgs in
    record {
      num_data_qps = 2 + num_get_qps;
      num_msgs = num_msgs;
      get_metadata_size = get_metadata_size;
      inv_metadata_size = inv_metadata_size;
      metadata_size = get_metadata_size + inv_metadata_size;
    }

-- the size of the region, in the same function
unfoldable pub metadata_mr_size : RdmaConfig → ℕ
metadata_mr_size c = c.num_data_qps * c.metadata_size

-- the queue of `dcc_rdma_write_msg`, by the processor that it runs on
unfoldable pub get_queue : ℕ → ℕ
get_queue processor_id = processor_id % num_get_qps + 2

-- `GET_METADATA_OFFSET`, and -1 for another type of message
unfoldable pub get_metadata_offset : RdmaConfig → ℕ → ℕ → ℕ → ℕ
get_metadata_offset c queue_id msg_id msg_type =
    if msg_type == msg_read
    then c.metadata_size * queue_id
    else if msg_type == msg_inv_page
    then c.metadata_size * queue_id + c.get_metadata_size + msg_id * 8
    else 2 ^ 64 - 1

-- A write to the server's memory that comes with immediate data: numbers of 8 bytes, one after the
-- other.
pub record Request : Type 0 where
  pub imm_data : ℕ
  pub remote_addr : ℕ
  pub words : List ℕ

-- What the server's card does with it: the number of 8 bytes at each address.
unfoldable pub write_words : Array ℕ → ℕ → List ℕ → Array ℕ
write_words mem addr [] = mem
write_words mem addr (w ∷ ws) = write_words (update mem addr w) ((addr + 8) % 2 ^ 64) ws

-- what `poll_recv_cq` returns, and what it leaves in `etc` and `crc`
pub record Polled : Type 0 where
  pub ret : ℤ
  pub etc : ℕ
  pub crc : ℕ

-- the switch of `poll_recv_cq`
unfoldable pub ret_of_state : ℕ → ℤ
ret_of_state tx_state =
    if tx_state == tx_write_committed || tx_state == tx_inv_page_commited
    then pos 0
    else if tx_state == tx_read_committed
    then pos 0
    else if tx_state == tx_read_aborted || tx_state == tx_inv_page_aborted
    then pos 1
    else negsuc 0

module _ (htonl ntohl : ℕ → ℕ) where
  -- `etc` and `crc` are what the variables held before.
  unfoldable pub poll_recv_cq : ℕ → ℕ → ℕ → Polled
  poll_recv_cq imm_data etc crc =
      let f = bit_unmask (ntohl imm_data) in
      if imm_data == 0
      then record { ret = pos 0; etc = etc; crc = crc }
      else record { ret = ret_of_state f.tx; etc = f.etc; crc = f.crc }

  -- `dcc_rdma_write_msg` up to its post: the key, and where the page is to be written
  unfoldable pub write_msg_request : RdmaConfig → ℕ → ℕ → ℕ → ℕ → Request
  write_msg_request c baseaddr queue_id key raddr =
      let msg_id : ℕ = 0 in
      record {
        imm_data = htonl (bit_mask msg_id msg_read tx_read_begin 0 0);
        remote_addr = (baseaddr + get_metadata_offset c queue_id msg_id msg_read) % 2 ^ 64;
        words = key ∷ raddr ∷ [];
      }

  -- The rest of `dcc_rdma_write_msg`: the code that it returns for an answer, with the checksum of
  -- the page as it is then.
  unfoldable pub write_msg_ret : ℕ → ℕ → ℕ → ℤ
  write_msg_ret imm_data crc page_crc =
      let polled = poll_recv_cq imm_data 0 crc in
      if not (is_nonzero polled.ret) && not (polled.crc % 2 ^ 8 == page_crc)
      then negsuc 3
      else polled.ret

  -- `dcc_rdma_write_msg2` up to its post, for the message number that it took
  unfoldable pub write_msg2_request : RdmaConfig → ℕ → ℕ → ℕ → ℕ → Request
  write_msg2_request c baseaddr queue_id msg_id key = record {
    imm_data = htonl (bit_mask msg_id msg_inv_page tx_inv_page_begin 0 0);
    remote_addr = (baseaddr + get_metadata_offset c queue_id msg_id msg_inv_page) % 2 ^ 64;
    words = key ∷ [];
  }

  -- The rest of `dcc_rdma_write_msg2`: an answer is read for the last number only.
  unfoldable pub write_msg2_ret : RdmaConfig → ℕ → ℕ → ℤ
  write_msg2_ret c msg_id imm_data =
      if ltb msg_id (c.num_msgs - 1) then pos 0 else (poll_recv_cq imm_data 0 0).ret
