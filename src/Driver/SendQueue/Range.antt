-- ===== src/Driver/SendQueue/Range.antt =====
-- For how long `msg_id` of the send queue is good.
use native.Mathlib.Decide.{ℕ_discrete, dec_lt}
use cleancache_rdma.Prelude.{
  ℕ, ◌-◌, ◌%◌, ◌^◌, ◌≤◌, ◌<◌, ◌≡◌, ◌≢◌, ◌↔◌, ◌⊎◌, ◌∙◌, sym, Bool, true, false, inl, inr, refl,
  arith, Bool-cases,
}
use cleancache_rdma.Prelude.Int.{ℤ, pos, negsuc}
use cleancache_rdma.Driver.SendQueue.{
  SendQueue, Message, out_of_bounds, refused, send_page, slot_of, last_test,
}
use cleancache_rdma.Driver.SendQueue.Holds.{slot_of-small}

ℤ-cases : (z : ℤ) → ((n : ℕ) × (z ≡ pos n)) ⊎ ((n : ℕ) × (z ≡ negsuc n))
ℤ-cases (pos n) = inl (n, refl)
ℤ-cases (negsuc n) = inr (n, refl)

in_bounds :
    (q : SendQueue) (m : Message) (tests : ℕ → Bool) (slot : ℕ)
    → slot_of q.msg_id ≡ pos slot
    → send_page q m tests ≢ out_of_bounds
unfolding send_page
in_bounds q m tests slot e = elim (Bool-cases (tests (last_test tests))) [
  | inl on ↦ rw (send_page, e, on) (λ x. cc)
  | inr off ↦ rw (send_page, e, off) (λ x. cc)
]

set_refuses :
    (q : SendQueue) (m : Message) (tests : ℕ → Bool)
    → tests (last_test tests) ≡ true
    → send_page q m tests ≡ refused q
unfolding send_page
set_refuses q m tests on = elim (ℤ-cases (slot_of q.msg_id)) [
  | inl (n, e) ↦ rw (send_page, e, on) refl
  | inr (n, e) ↦ rw (send_page, e, on) refl
]

refused-not_out : {q : SendQueue} → refused q ≢ out_of_bounds
refused-not_out e = cc

negative_writes :
    (q : SendQueue) (m : Message) (tests : ℕ → Bool) (n : ℕ)
    → slot_of q.msg_id ≡ negsuc n
    → tests (last_test tests) ≡ false
    → send_page q m tests ≡ out_of_bounds
unfolding send_page
negative_writes q m tests n e off = rw (send_page, e, off) refl

slot_of-negative :
    (n : ℕ)
    → 2 ^ 31 ≤ n
    → n < 2 ^ 32
    → (n % 512 ≢ 0) × (slot_of n ≡ negsuc ((2 ^ 32 - n) % 512 - 1))
      ⊎ (n % 512 ≡ 0) × (slot_of n ≡ pos 0)
unfolding slot_of
slot_of-negative n big word = elim (ℕ_discrete (n % 512) 0) [
  | yes e ↦ inr (e, ground (arith, e, big, word))
  | no e ↦ inl (e, ground (arith, e, big, word))
]

-- A call writes in front of the buffer exactly when `msg_id` has become negative, behind 2^31
-- accepted messages, and is no multiple of 512, and the last test of the wait bit finds it clear. With
-- the bit set at the last test, no call writes: it is refused and changes nothing.
pub send_page-out_of_bounds :
    (q : SendQueue) (m : Message) (tests : ℕ → Bool)
    → q.msg_id < 2 ^ 32
    → ((send_page q m tests ≡ out_of_bounds)
        ↔ ((2 ^ 31 ≤ q.msg_id) × (q.msg_id % 512 ≢ 0) × (tests (last_test tests) ≡ false)))
      × (tests (last_test tests) ≡ true → send_page q m tests ≡ refused q)
send_page-out_of_bounds q m tests word = (
  elim (dec_lt q.msg_id (2 ^ 31)) [
    | yes small ↦ (
      λ e. absurd (in_bounds q m tests (q.msg_id % 512) (slot_of-small q.msg_id small) e),
      λ (big, odd, clear). absurd (omega (arith, small, big)),
    )
    | no big ↦
        let far : 2 ^ 31 ≤ q.msg_id = omega (arith, big) in
        elim (slot_of-negative q.msg_id far word) [
          | inl (odd, e) ↦ elim (Bool-cases (tests (last_test tests))) [
            | inl on ↦ (
              λ out. absurd (refused-not_out (sym (set_refuses q m tests on) ∙ out)),
              λ (_, _, clear). absurd (cc),
            )
            | inr off ↦ (λ _. (far, odd, off), λ _. negative_writes q m tests _ e off)
          ]
          | inr (even, e) ↦
              (λ out. absurd (in_bounds q m tests 0 e out), λ (_, odd, _). absurd (odd even))
        ]
  ],
  set_refuses q m tests,
)
