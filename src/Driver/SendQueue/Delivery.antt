-- ===== src/Driver/SendQueue/Delivery.antt =====
-- What `dcc_rdma_send_page` and its work promise: which batches are sent, progress, and the range of
-- `msg_id`.
use mathlib.Core.List.{Memᴰ as Mem}
use cleancache_rdma.Prelude.{
  ℕ, zero, suc, ◌+◌, ◌-◌, ◌*◌, ◌%◌, ◌≤◌, ◌<◌, ◌≡◌, List, [], ◌∷◌, refl, sym, ap, subst, ◌∙◌, arith,
  Array,
}
use cleancache_rdma.Driver.SendQueue.{
  SendQueue, Message, send_page_work_handler, gather_from, fill_slot, copy_to_send_buffer,
}
use cleancache_rdma.Driver.SendQueue.Runs.{Reach, start, put, give_up, work}
use cleancache_rdma.Driver.SendQueue.Holds.{Holds, Pend, Take-Pend}
use cleancache_rdma.Driver.SendQueue.Sends.{Reach-Holds, accepted_lem, refused_lem}

-- `m` messages of the sequence from the `k`-th on
unfoldable pub slice : (ℕ → Message) → ℕ → ℕ → List Message
slice puts zero k = []
slice puts (suc m) k = puts k ∷ slice puts m (k + 1)

gather_from-slice :
    (puts : ℕ → Message) (n : ℕ) (buffer : Array Message)
    → ((k : ℕ) → k < n → n ≤ k + 512 → buffer (k % 512) ≡ puts k)
    → (m s k : ℕ) → k + m ≤ n
    → n ≤ k + 512
    → s + m ≤ 512
    → s % 512 ≡ k % 512
    → gather_from buffer m s ≡ slice puts m k
unfolding gather_from slice
gather_from-slice puts n buffer filled zero s k fits kept low same = refl
gather_from-slice puts n buffer filled (suc m) s k fits kept low same =
    let here : buffer s ≡ puts k =
      ap buffer (omega (arith, low, same)) ∙ filled k (omega (arith, fits)) kept in
    let there =
      gather_from-slice puts n buffer filled m (s + 1) (k + 1) (omega (arith, fits))
        (omega (arith, kept)) (omega (arith, low)) (omega (arith, same)) in
    rw (here, there) refl

-- A batch that is sent: the messages of the `b`-th batch, all of them accepted.
pub record Batch (puts : ℕ → Message) (n : ℕ) (messages : List Message) : Type 0 where
  pub number : ℕ
  pub full : 32 * number + 32 ≤ n
  pub whole : messages ≡ slice puts 32 (32 * number)

Batch-suc :
    {puts : ℕ → Message} {n : ℕ} {messages : List Message}
    → Batch puts n messages
    → Batch puts (n + 1) messages
Batch-suc b = record { number = b.number; full = omega (arith, b.full); whole = b.whole }

-- The batch that a scheduled work sends.
pub gathered :
    {puts : ℕ → Message} {n : ℕ} {q : SendQueue} {w : ℕ}
    → Holds puts n q
    → (p : Pend n q.wait w) → gather_from q.buffer 32 (w - 31) ≡ slice puts 32 (32 * p.batch)
gathered {puts} {n} {q} {w} h p =
    gather_from-slice puts n q.buffer h.filled 32 (w - 31) (32 * p.batch) (omega (arith, p.full))
      (omega (arith, p.kept)) (omega (arith, p.slot)) (omega (arith, p.slot))

pub fill_slot-posted :
    (q : SendQueue) (slot : ℕ) (m : Message) → (fill_slot q slot m).posted ≡ q.posted
unfolding fill_slot copy_to_send_buffer
fill_slot-posted q slot m = ground arith

-- In every run, with at most 2^31 messages accepted, each batch that was sent is 32 messages that
-- were accepted one after the other, from a multiple of 32 on, unchanged and in their order.
pub posted-Batch :
    {puts : ℕ → Message} {n : ℕ} {q : SendQueue} {messages : List Message}
    → Reach puts n q
    → Mem messages q.posted
    → Batch puts n messages
unfolding send_page_work_handler
posted-Batch start m = elim m [ ]
posted-Batch {puts} {messages} (put {n} {q} tests r small reads e) m =
    let (same, clear) = accepted_lem tests (Reach-Holds r) small reads e in
    let before : (fill_slot q (n % 512) (puts n)).posted ≡ q.posted =
      fill_slot-posted q (n % 512) (puts n) in
    Batch-suc (
      posted-Batch r (
        subst (λ (l : List (List Message)). Mem messages l) (ap (λ s. s.posted) (sym same) ∙ before)
          m))
posted-Batch {messages} (give_up tests r small reads e) m = posted-Batch r (
    subst (λ (s : SendQueue). Mem messages s.posted)
      (sym (refused_lem tests (Reach-Holds r) small reads e).0) m)
posted-Batch (work {n} {q} {w} r t) (Mem.head e) =
    let h = Reach-Holds r in
    let p = Take-Pend n q.wait t h.pending in
    record { number = p.batch; full = p.full; whole = e ∙ gathered h p }
posted-Batch (work {n} {q} {w} r t) (Mem.tail m) = posted-Batch r m
