-- ===== src/Driver/SendQueue.antt =====
-- driver/rdma.c: the send buffer of a controller's queue 0, `dcc_rdma_send_page` and the work that it
-- schedules, `send_page_work_handler`. The sizes are those of `dcc_rdma_set_default_config`. A page's
-- contents are a number. `msg_id` is an int, kept as its 32 bits, which wrap; `wait` is read by bit.
-- `work` holds the messages of the scheduled works, which may run in any order, `posted` the batches
-- that are sent, the newest first. A call of `dcc_rdma_send_page` holds the queue's lock; `tests` are
-- the answers of `test_bit` in its loop, since a work clears its bit without that lock; behind a
-- negative slot they are what stands there in memory. The reply that
-- is polled for behind the last batch of the buffer is read and dropped, and is left out.
pub mod Runs
pub mod Holds
pub mod Sends
pub mod Delivery
pub mod Progress
pub mod Range
mod Tests
use cleancache_rdma.Prelude.{
  ℕ, zero, suc, ◌+◌, ◌-◌, ◌/◌, ◌%◌, ◌^◌, Bool, true, false, List, [], ◌∷◌, ◌++◌, ltb, ◌==◌,
  if◌then◌else◌, Array, update,
}
use cleancache_rdma.Prelude.Int.{ℤ, pos, negsuc}

abbrev pub num_msgs : ℕ
num_msgs = 512

abbrev pub num_put_batch : ℕ
num_put_batch = 32

-- what a slot of the send buffer holds: a page, and its key behind it
pub record Message : Type 0 where
  pub key : ℕ
  pub page : ℕ

pub record SendQueue : Type 0 where
  pub msg_id : ℕ
  pub wait : Array Bool
  pub buffer : Array Message
  pub work : List ℕ
  pub posted : List (List Message)

abbrev pub new : SendQueue
new = record {
  msg_id = 0;
  wait = λ i. false;
  buffer = λ i. record { key = 0; page = 0 };
  work = [];
  posted = [];
}

-- `q->msg_id++ % num_msgs` on a signed int: its remainder has the sign of the number
unfoldable pub slot_of : ℕ → ℤ
slot_of msg_id =
    let magnitude = (2 ^ 32 - msg_id) % num_msgs in
    if ltb msg_id (2 ^ 31)
    then pos (msg_id % num_msgs)
    else if magnitude == 0
    then pos 0
    else negsuc (magnitude - 1)

-- The loop over `test_bit`, `n` retries left: the number of the last test.
unfoldable pub last_test_from : (ℕ → Bool) → ℕ → ℕ → ℕ
last_test_from tests zero i = i
last_test_from tests (suc n) i = if tests i then last_test_from tests n (i + 1) else i

unfoldable pub last_test : (ℕ → Bool) → ℕ
last_test tests = last_test_from tests 6 0

-- How a call ends: with 0, with -6, or by writing in front of the buffer.
pub data Sent : Type 0 where
  accepted : SendQueue → Sent
  refused : SendQueue → Sent
  out_of_bounds : Sent

unfoldable pub copy_to_send_buffer : SendQueue → ℕ → Message → SendQueue
copy_to_send_buffer q slot m = record q { buffer = update q.buffer slot m }

-- The part of the call behind the loop, with the number that it took.
unfoldable pub fill_slot : SendQueue → ℕ → Message → SendQueue
fill_slot q slot m =
    let filled = copy_to_send_buffer (record q { msg_id = (q.msg_id + 1) % 2 ^ 32 }) slot m in
    if slot % num_put_batch == num_put_batch - 1
    then record filled {
      wait = update filled.wait (slot / num_put_batch) true;
      work = slot ∷ filled.work;
    }
    else filled

unfoldable pub send_page : SendQueue → Message → (ℕ → Bool) → Sent
send_page q m tests = elim (slot_of q.msg_id) [
  | pos slot ↦ if tests (last_test tests) then refused q else accepted (fill_slot q slot m)
  | negsuc n ↦ if tests (last_test tests) then refused q else out_of_bounds
]

-- The loop that sets up a batch: the slots from `slot` on.
unfoldable pub gather_from : Array Message → ℕ → ℕ → List Message
gather_from buffer zero slot = []
gather_from buffer (suc n) slot = buffer slot ∷ gather_from buffer n (slot + 1)

-- `send_page_work_handler` for the message `msg_id`, when the card has read its batch; `rest` are the
-- other scheduled works.
unfoldable pub send_page_work_handler : SendQueue → ℕ → List ℕ → SendQueue
send_page_work_handler q msg_id rest = record q {
  posted = gather_from q.buffer num_put_batch (msg_id - (num_put_batch - 1)) ∷ q.posted;
  wait = update q.wait (msg_id / num_put_batch) false;
  work = rest;
}
