-- ===== src/Driver/SendQueue/Sends.antt =====
-- Every step of the send queue keeps its invariant.
use native.Mathlib.Decide.{ℕ_discrete}
use cleancache_rdma.Prelude.{
  ℕ, ◌+◌, ◌/◌, ◌%◌, ◌^◌, ◌<◌, ◌≡◌, ◌≢◌, ◌⊎◌, Bool, true, false, inl, inr, refl, sym, ap, subst, ◌∙◌,
  arith, ◌==◌, ==_iff, Bool-cases,
}
use cleancache_rdma.Driver.SendQueue.{
  SendQueue, Message, new, accepted, refused, out_of_bounds, Sent, send_page,
  send_page_work_handler, last_test, fill_slot, copy_to_send_buffer,
}
use cleancache_rdma.Driver.SendQueue.Runs.{Reads, Reach, start, put, give_up, work}
use cleancache_rdma.Driver.SendQueue.Holds.{
  Holds, AllPend-Apart, AllPend-set, AllPend-suc, Take-AllPend, slot_of-small, filled-suc,
  waiting-set, waiting-clear,
}

abbrev state_of : Sent → SendQueue → SendQueue
state_of (accepted q) other = q
state_of (refused q) other = q
state_of out_of_bounds other = other

pub send_page-small :
    (q : SendQueue) (m : Message) (tests : ℕ → Bool)
    → q.msg_id < 2 ^ 31
    → ((tests (last_test tests) ≡ false)
        × (send_page q m tests ≡ accepted (fill_slot q (q.msg_id % 512) m)))
      ⊎ ((tests (last_test tests) ≡ true) × (send_page q m tests ≡ refused q))
unfolding send_page
send_page-small q m tests small = elim (Bool-cases (tests (last_test tests))) [
  | inl e ↦ inr (e, rw (send_page, slot_of-small q.msg_id small, e) refl)
  | inr e ↦ inl (e, rw (send_page, slot_of-small q.msg_id small, e) refl)
]

differ : (a b : ℕ) → a ≢ b → (a == b) ≡ false
differ a b h = ground arith

pub Holds-new : (puts : ℕ → Message) → Holds puts 0 new
Holds-new puts = record {
  small = omega arith;
  counts = refl;
  filled = λ k lt kept. absurd (omega (arith, lt));
  pending = tt;
  waiting = λ i set. cc;
}

Holds-fill :
    (puts : ℕ → Message) (n : ℕ) (q : SendQueue)
    → Holds puts n q
    → n < 2 ^ 31
    → q.wait (n % 512 / 32) ≡ false
    → Holds puts (n + 1) (fill_slot q (n % 512) (puts n))
unfolding fill_slot copy_to_send_buffer
Holds-fill puts n q h small clear = elim (ℕ_discrete (n % 512 % 32) 31) [
  | yes e ↦ rw ((==_iff (n % 512 % 32) 31).1 e) record {
    small = omega (arith, small);
    counts = omega (arith, h.counts, small);
    filled = filled-suc puts n q.buffer h.filled;
    pending = (
      record {
        batch = n / 32;
        slot = omega (arith, e);
        full = omega (arith, e);
        kept = omega (arith, e);
        waits = ground (arith, (==_iff (n % 512 / 32) (n % 512 / 32)).1 refl);
      },
      AllPend-Apart n q.wait (n % 512 / 32) q.work h.pending clear,
      AllPend-set (n + 1) q.wait (n % 512 / 32) q.work
          (AllPend-suc n q.wait q.work clear h.pending),
    );
    waiting = waiting-set q.wait q.work (n % 512) h.waiting;
  }
  | no e ↦ rw (differ (n % 512 % 32) 31 e) record {
    small = omega (arith, small);
    counts = omega (arith, h.counts, small);
    filled = filled-suc puts n q.buffer h.filled;
    pending = AllPend-suc n q.wait q.work clear h.pending;
    waiting = h.waiting;
  }
]

-- What a call did that took the message, and what a call found that gave up.
pub accepted_lem :
    {puts : ℕ → Message} {n : ℕ} {q q' : SendQueue} (tests : ℕ → Bool)
    → Holds puts n q
    → n < 2 ^ 31
    → Reads q tests
    → send_page q (puts n) tests ≡ accepted q'
    → (fill_slot q (n % 512) (puts n) ≡ q') × (q.wait (n % 512 / 32) ≡ false)
accepted_lem {puts} {n} {q} tests h small reads e =
    let same : q.msg_id ≡ n = h.counts in
    elim (send_page-small q (puts n) tests (rw same small)) [
      | inl (off, sent) ↦ (
        ap (λ (x : ℕ). fill_slot q (x % 512) (puts n)) (sym same)
            ∙ ap (λ s. state_of s q) (sym sent ∙ e),
        ap (λ (x : ℕ). q.wait (x % 512 / 32)) (sym same) ∙ (sym reads ∙ off),
      )
      | inr (on, sent) ↦ absurd (cc)
    ]

pub refused_lem :
    {puts : ℕ → Message} {n : ℕ} {q q' : SendQueue} (tests : ℕ → Bool)
    → Holds puts n q
    → n < 2 ^ 31
    → Reads q tests
    → send_page q (puts n) tests ≡ refused q'
    → (q ≡ q') × (q.wait (n % 512 / 32) ≡ true)
refused_lem {puts} {n} {q} tests h small reads e =
    let same : q.msg_id ≡ n = h.counts in
    elim (send_page-small q (puts n) tests (rw same small)) [
      | inl (off, sent) ↦ absurd (cc)
      | inr (on, sent) ↦ (
        ap (λ s. state_of s q) (sym sent ∙ e),
        ap (λ (x : ℕ). q.wait (x % 512 / 32)) (sym same) ∙ (sym reads ∙ on),
      )
    ]

pub Reach-Holds : {puts : ℕ → Message} {n : ℕ} {q : SendQueue} → Reach puts n q → Holds puts n q
unfolding send_page_work_handler
Reach-Holds {puts} start = Holds-new puts
Reach-Holds {puts} (put {n} {q} tests r small reads e) =
    let h = Reach-Holds r in
    let (same, clear) = accepted_lem tests h small reads e in
    subst (Holds puts (n + 1)) same (Holds-fill puts n q h small clear)
Reach-Holds {puts} (give_up {n} tests r small reads e) =
    let h = Reach-Holds r in subst (Holds puts n) (refused_lem tests h small reads e).0 h
Reach-Holds {puts} (work {n} {q} {w} r t) =
    let h = Reach-Holds r in
    record {
      small = h.small;
      counts = h.counts;
      filled = h.filled;
      pending = Take-AllPend n q.wait t h.pending;
      waiting = waiting-clear q.wait w t h.waiting;
    }
