-- ===== src/Daemon/Poller.antt =====
-- daemon/rdma.cpp: the pollers of the completion queues. `hybrid_data_cq_poller` waits for an event,
-- then polls for a while, and adapts the while to how often it finds something; all of them hand a
-- completion to the handlers by its opcode. A while is a number of milliseconds. How often a period
-- finds something, or nothing, is an argument, with at least one poll: the code's jump to `retry` goes
-- on polling until there is one.
pub mod Period
mod Tests
use cleancache_rdma.Prelude.{
  ℕ, ◌+◌, ◌*◌, ◌/◌, ◌%◌, ◌^◌, Bool, Option, none, some, List, [], ◌∷◌, ltb, ◌==◌, ◌&&◌,
  if◌then◌else◌,
}
use cleancache_rdma.Daemon.Pair.{Run, ok, throw}
use cleancache_rdma.Daemon.Handlers.{Server, Moment, process_imm, process_recv}

abbrev pub min_duration : ℕ
min_duration = 1

abbrev pub max_duration : ℕ
max_duration = 2 ^ 10

-- the first while, by whether the mode is WC_ADAPTIVE_BO
unfoldable pub first_duration : Bool → ℕ
first_duration adaptive = if adaptive then 2 ^ 5 else min_duration

-- `event_mode` waits for an event, `poll_mode` does not.
pub data Mode : Type 0 where
  event_mode : Mode
  poll_mode : Mode

-- 100UL * succ_cnt / (succ_cnt + failed_cnt)
unfoldable pub succ_rate_of : ℕ → ℕ → ℕ
succ_rate_of succ_cnt failed_cnt = 100 * succ_cnt / (succ_cnt + failed_cnt)

-- What a period ends with: the mode of the next one, and its while.
unfoldable pub adapt : Bool → ℕ → ℕ → ℕ → Mode × ℕ
adapt adaptive duration succ_cnt failed_cnt =
    let succ_rate = succ_rate_of succ_cnt failed_cnt in
    if succ_rate == 0
    then (event_mode, if adaptive && ltb min_duration duration then duration / 2 else duration)
    else (
      poll_mode,
      if adaptive && ltb 80 succ_rate && ltb duration max_duration then duration * 2 else duration,
    )

-- The loop of the poller, over the counts of its periods.
unfoldable pub poll_periods : Bool → List (ℕ × ℕ) → Mode × ℕ → Mode × ℕ
poll_periods adaptive [] at = at
poll_periods adaptive ((succ_cnt, failed_cnt) ∷ rest) at =
    poll_periods adaptive rest (adapt adaptive at.1 succ_cnt failed_cnt)

-- the opcodes of a completion that the pollers tell apart
pub data Opcode : Type 0 where
  send : Opcode
  recv_rdma_with_imm : Opcode
  recv : Opcode
  rdma_write : Opcode
  rdma_read : Opcode
  other : Opcode

pub record Completion : Type 0 where
  pub opcode : Opcode
  pub imm_data : ℕ
  pub wr_id : ℕ
  -- what stands in the memory that the client wrote, by message number, and behind a page
  pub key_at : ℕ → ℕ
  pub raddr_at : ℕ → ℕ
  pub moment : Moment

module _ (hash_funcs : ℕ → ℕ → ℕ) (htonl ntohl crc8 : ℕ → ℕ) where
  -- The pollers' switch: none where an assertion fails. A send, a write, a read and an opcode that is
  -- not known are passed over.
  unfoldable pub dispatch : Server → ℕ → ℕ → Opcode → Completion → Option (Run Server)
  dispatch s cid qid recv_rdma_with_imm wc =
      elim (process_imm hash_funcs htonl ntohl crc8 s cid wc.imm_data wc.key_at wc.raddr_at
        wc.moment) [ none ↦ none | some s' ↦ some (ok s') ]
  dispatch s cid qid recv wc =
      process_recv hash_funcs htonl ntohl crc8 s cid qid wc.wr_id wc.imm_data wc.key_at wc.moment
  dispatch s cid qid opcode wc = some (ok s)

  -- The loop over `wc_arr`.
  unfoldable pub process_all : Server → ℕ → ℕ → List Completion → Option (Run Server)
  process_all s cid qid [] = some (ok s)
  process_all s cid qid (wc ∷ rest) = elim (dispatch s cid qid wc.opcode wc) [
    | none ↦ none
    | some (throw e) ↦ some (throw e)
    | some (ok s') ↦ process_all s' cid qid rest
  ]
