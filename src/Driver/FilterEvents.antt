-- ===== src/Driver/FilterEvents.antt =====
-- driver/rdma.c: `dcc_rdma_send_msg`, with which the worker asks for a filter update, and
-- `filter_event_handler`, which gets the completions of the filter queue. The completions that
-- `ib_poll_cq` delivers to one call are an argument.
pub mod Reposted
mod Tests
use cleancache_rdma.Prelude.{ℕ, ◌+◌, Bool, true, false, not, List, [], ◌∷◌, ◌==◌, if◌then◌else◌}
use cleancache_rdma.Driver.Metadata.{Metadata, metadata_unblocking}

-- FILTER_UPDATE_END
abbrev pub filter_update_end : ℕ
filter_update_end = 101

-- A work request of `dcc_rdma_send_msg`: whether it has immediate data, and the pieces of memory that
-- it sends.
pub record SendRequest : Type 0 where
  pub with_imm : Bool
  pub imm_data : ℕ
  pub pieces : List (ℕ × ℕ)

unfoldable pub send_msg : ℕ → ℕ → ℕ → SendRequest
send_msg addr bufsize imm = record {
  with_imm = not (imm == 0);
  imm_data = imm;
  pieces = if addr == 0 then [] else (addr, bufsize) ∷ [];
}

pub data Opcode : Type 0 where
  rdma_write : Opcode
  send : Opcode
  recv : Opcode
  recv_rdma_with_imm : Opcode
  other : Opcode

pub record Completion : Type 0 where
  pub status : ℕ
  pub opcode : Opcode
  pub imm_data : ℕ

-- the metadata and the flag that the worker waits for, and the receive buffers that are posted
pub record FilterQueue : Type 0 where
  pub meta : Metadata
  pub filter_update_done : Bool
  pub posted : ℕ

unfoldable pub update_filter : FilterQueue → FilterQueue
update_filter q = record q { filter_update_done = true; meta = metadata_unblocking q.meta }

-- `process_imm`, where another number is reported
unfoldable pub process_imm : FilterQueue → ℕ → FilterQueue
process_imm q imm_data = if imm_data == filter_update_end then update_filter q else q

unfoldable pub post_recv : FilterQueue → FilterQueue
post_recv q = record q { posted = q.posted + 1 }

-- the switch of the handler
unfoldable pub handle : FilterQueue → ℕ → Opcode → FilterQueue
handle q imm_data rdma_write = q
handle q imm_data send = q
handle q imm_data recv = post_recv (process_imm q imm_data)
handle q imm_data recv_rdma_with_imm = post_recv (process_imm q imm_data)
handle q imm_data other = q

abbrev pub is_other : Opcode → Bool
is_other other = true
is_other opcode = false

-- The loop of the handler: a completion with an error, or an opcode that is not known, ends it, and
-- the queue is not armed again. The Boolean is whether it is.
unfoldable pub filter_event_handler : FilterQueue → List Completion → Bool × FilterQueue
filter_event_handler q [] = (true, q)
filter_event_handler q (wc ∷ rest) =
    let after = filter_event_handler (handle q wc.imm_data wc.opcode) rest in
    if not (wc.status == 0) then (false, q) else if is_other wc.opcode then (false, q) else after
