-- ===== src/Protocol/Requests.antt =====
-- A request of the client, from the post to the code that the caller gets: `dcc_rdma_write_msg` and
-- `dcc_rdma_write_msg2` of driver/rdma.c, and `process_imm` of daemon/rdma.cpp, which reads what the
-- client wrote to the server's memory. `mem` is that memory, the number of 8 bytes at each address.
pub mod Get
pub mod Invalidate
mod Tests
use cleancache_rdma.Prelude.{ℕ, Option, Array}
use cleancache_rdma.Daemon.Imm.{RdmaConfig, bit_unmask, key_meta_region, addr_meta_region}
use cleancache_rdma.Daemon.Handlers.{Server, Moment, process_imm}
use cleancache_rdma.Driver.Request.{Request, write_words}

module _ (hash_funcs : ℕ → ℕ → ℕ) (htonl ntohl crc8 : ℕ → ℕ) where
  -- The server's part: `qid` is the queue of the request.
  unfoldable pub serve :
      RdmaConfig → Server → ℕ → ℕ → ℕ → Array ℕ → Request → Moment → Option Server
  serve c s cid qid baseaddr mem req m =
      let written = write_words mem req.remote_addr req.words in
      let type = (bit_unmask (ntohl req.imm_data)).msg in
      process_imm hash_funcs htonl ntohl crc8 s cid req.imm_data
        (λ mid. written (key_meta_region c baseaddr qid mid type))
        (λ mid. written (addr_meta_region c baseaddr qid mid)) m
