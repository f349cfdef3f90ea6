-- ===== src/Driver/SendQueue/Runs.antt =====
-- The runs of the send queue: calls and works in any order.
use cleancache_rdma.Prelude.{ℕ, ◌+◌, ◌/◌, ◌%◌, ◌^◌, ◌<◌, ◌≡◌, Bool, List, ◌∷◌}
use cleancache_rdma.Driver.SendQueue.{
  SendQueue, Message, new, num_msgs, num_put_batch, last_test, accepted, refused, send_page,
  send_page_work_handler,
}

-- `w` is taken out of a list
pub data Take (w : ℕ) : List ℕ → List ℕ → Type 0 where
  first : {rest : List ℕ} → Take w (w ∷ rest) rest
  next : {v : ℕ} {ws rest : List ℕ} → Take w ws rest → Take w (v ∷ ws) (v ∷ rest)

-- the batch of the next message
abbrev pub batch_of : ℕ → ℕ
batch_of n = n % num_msgs / num_put_batch

-- The last test of the loop reads the bit as it is when the call goes on, or gives up.
abbrev pub Reads : SendQueue → (ℕ → Bool) → Type 0
Reads q tests = tests (last_test tests) ≡ q.wait (batch_of q.msg_id)

-- `puts` is the sequence of messages that are handed over, `n` of which are accepted.
pub data Reach (puts : ℕ → Message) : ℕ → SendQueue → Type 0 where
  start : Reach puts 0 new
  put :
      {n : ℕ} {q q' : SendQueue} (tests : ℕ → Bool)
      → Reach puts n q
      → n < 2 ^ 31
      → Reads q tests
      → send_page q (puts n) tests ≡ accepted q'
      → Reach puts (n + 1) q'
  give_up :
      {n : ℕ} {q q' : SendQueue} (tests : ℕ → Bool)
      → Reach puts n q
      → n < 2 ^ 31
      → Reads q tests
      → send_page q (puts n) tests ≡ refused q'
      → Reach puts n q'
  work :
      {n : ℕ} {q : SendQueue} {w : ℕ} {rest : List ℕ}
      → Reach puts n q
      → Take w q.work rest
      → Reach puts n (send_page_work_handler q w rest)
