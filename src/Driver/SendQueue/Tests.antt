-- ===== src/Driver/SendQueue/Tests.antt =====
-- The send queue on inputs of its own: 32 calls and their work, 512 calls without a work, and a number
-- of messages that has become negative.
use mathlib.Core.List.{Memᴰ as Mem}
use native.Mathlib.Decide.{dec_lt}
use cleancache_rdma.Prelude.{
  false, ℕ, zero, suc, ◌+◌, ◌-◌, ◌%◌, ◌^◌, ◌≤◌, ◌<◌, ◌≡◌, ◌≢◌, ◌↔◌, true, List, [], ◌∷◌, refl,
  arith, length,
}
use cleancache_rdma.Driver.SendQueue.{
  SendQueue, Message, new, num_put_batch, accepted, refused, out_of_bounds, Sent, send_page,
  send_page_work_handler, gather_from, slot_of, last_test, last_test_from, fill_slot,
  copy_to_send_buffer,
}
use cleancache_rdma.Driver.SendQueue.Runs.{Take, first, Reach, start, put, give_up, work}
use cleancache_rdma.Driver.SendQueue.Delivery.{Batch, posted-Batch}
use cleancache_rdma.Driver.SendQueue.Range.{send_page-out_of_bounds}
use cleancache_rdma.Driver.SendQueue.Progress.{Kept, Reach-delivers, steady, refused-accepted}

-- the k-th message
abbrev puts : ℕ → Message
puts k = record { key = k + 1; page = k + 100 }

record Run : Type 0 where
  n : ℕ
  q : SendQueue
  reach : Reach puts n q

unfoldable call : Run → Run
call r = elim (dec_lt r.n (2 ^ 31)) [
  | yes small ↦ go small (send_page r.q (puts r.n) (steady r.q)) refl
  | no big ↦ r
]
  where
    go : r.n < 2 ^ 31 → (s : Sent) → send_page r.q (puts r.n) (steady r.q) ≡ s → Run
    go small (accepted q) e = record {
      n = r.n + 1;
      q = q;
      reach = put (steady r.q) r.reach small refl e;
    }
    go small (refused q) e = record {
      n = r.n;
      q = q;
      reach = give_up (steady r.q) r.reach small refl e;
    }
    go small out_of_bounds e = r

unfoldable calls : ℕ → Run
calls zero = record { n = 0; q = new; reach = start }
calls (suc n) = call (calls n)

calls_example : (calls 32).q.work ≡ 31 ∷ []
unfolding calls call send_page slot_of last_test last_test_from fill_slot copy_to_send_buffer dec_lt
calls_example = refl

full_example : (calls 512).q.wait 0 ≡ true
unfolding calls call send_page slot_of last_test last_test_from fill_slot copy_to_send_buffer dec_lt
full_example = refl

-- the work of the first 32 messages, run
abbrev worked : SendQueue
worked = send_page_work_handler (calls 32).q 31 []

worked_Reach : Reach puts 32 worked
unfolding calls call send_page slot_of last_test last_test_from fill_slot copy_to_send_buffer dec_lt
worked_Reach = work (calls 32).reach first

posted-Batch_example :
    Batch puts 32 (gather_from (calls 32).q.buffer num_put_batch (31 - (num_put_batch - 1)))
unfolding calls call send_page slot_of last_test last_test_from fill_slot copy_to_send_buffer dec_lt
    send_page_work_handler
posted-Batch_example = posted-Batch worked_Reach (Mem.head refl)

Reach-delivers_example :
    Kept puts 32 worked 0 × (◌≡◌ {A = ℕ} 1 (length worked.posted + length worked.work))
unfolding calls call send_page slot_of last_test last_test_from fill_slot copy_to_send_buffer dec_lt
    send_page_work_handler
Reach-delivers_example = Reach-delivers 0 worked_Reach (omega arith)

-- the state behind 512 calls with no work run: the 513-th call is refused
abbrev blocked : SendQueue
blocked = (calls 512).q

blocked_refused : send_page blocked (puts 512) (steady blocked) ≡ refused blocked
unfolding calls call send_page slot_of last_test last_test_from fill_slot copy_to_send_buffer dec_lt
blocked_refused = refl

refused-accepted_example :
    (w : ℕ) × (rest : List ℕ) × (s : SendQueue) × Take w blocked.work rest
    × (send_page
          (send_page_work_handler blocked w rest)
          (puts 512)
          (steady (send_page_work_handler blocked w rest))
        ≡ accepted s)
unfolding calls call send_page slot_of last_test last_test_from fill_slot copy_to_send_buffer dec_lt
refused-accepted_example =
    refused-accepted (steady blocked) (calls 512).reach (omega arith) refl blocked_refused

abbrev negative : SendQueue
negative = record new { msg_id = 2 ^ 31 + 1 }

send_page-out_of_bounds_example :
    ((send_page negative (puts 0) (steady negative) ≡ out_of_bounds) ↔ (
      (2 ^ 31 ≤ 2 ^ 31 + 1)
      × ((2 ^ 31 + 1) % 512 ≢ 0)
      × (steady negative (last_test (steady negative)) ≡ false)))
    × (steady negative (last_test (steady negative)) ≡ true
        → send_page negative (puts 0) (steady negative) ≡ refused negative)
send_page-out_of_bounds_example =
    send_page-out_of_bounds negative (puts 0) (steady negative) (omega arith)
