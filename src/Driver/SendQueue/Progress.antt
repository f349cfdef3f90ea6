-- ===== src/Driver/SendQueue/Progress.antt =====
-- What `dcc_rdma_send_page` and its work promise: no batch is lost, and a refused call can be tried
-- again.
use mathlib.Core.List.{Memᴰ as Mem}
use native.Mathlib.Decide.{ℕ_discrete, dec_le}
use cleancache_rdma.Prelude.{
  ℕ, ◌+◌, ◌*◌, ◌/◌, ◌%◌, ◌^◌, ◌≤◌, ◌<◌, ◌≡◌, ◌≢◌, ◌⊎◌, Bool, false, List, ◌∷◌, inl, inr, refl, sym,
  ap, subst, ◌∙◌, arith, Array, length, ==_iff,
}
use cleancache_rdma.Driver.SendQueue.{
  SendQueue, Message, accepted, refused, send_page, send_page_work_handler, last_test, fill_slot,
  copy_to_send_buffer,
}
use cleancache_rdma.Driver.SendQueue.Runs.{
  Take, first, next, batch_of, Reads, Reach, start, put, give_up, work,
}
use cleancache_rdma.Driver.SendQueue.Holds.{Holds, Pend, Take-Pend, Take-other}
use cleancache_rdma.Driver.SendQueue.Sends.{Reach-Holds, accepted_lem, refused_lem, send_page-small}
use cleancache_rdma.Driver.SendQueue.Delivery.{slice, gathered, fill_slot-posted}

-- The batch `b` was sent, or its work is scheduled and its slots are not written again yet.
abbrev pub Kept : (ℕ → Message) → ℕ → SendQueue → ℕ → Type 0
Kept puts n q b =
    Mem (slice puts 32 (32 * b)) q.posted
    ⊎ ((rest : List ℕ) × Take ((32 * b + 31) % 512) q.work rest × (n ≤ 32 * b + 512))

fill_slot-work :
    (q : SendQueue) (slot : ℕ) (m : Message)
    → ((fill_slot q slot m).work ≡ slot ∷ q.work) × (slot % 32 ≡ 31)
      ⊎ ((fill_slot q slot m).work ≡ q.work) × (slot % 32 ≢ 31)
unfolding fill_slot copy_to_send_buffer
fill_slot-work q slot m = elim (ℕ_discrete (slot % 32) 31) [
  | yes e ↦ inl (rw ((==_iff (slot % 32) 31).1 e) refl, e)
  | no e ↦ inr (ground (arith, e), e)
]

-- A batch whose work is scheduled is the only one for its slots.
Take-kept :
    {n b w : ℕ} {wait : Array Bool}
    → (p : Pend n wait w) → w ≡ (32 * b + 31) % 512
    → 32 * b + 32 ≤ n
    → n ≤ 32 * b + 513
    → (n ≤ 32 * b + 512) × (p.batch ≡ b)
Take-kept p same full kept =
    (omega (arith, p.slot, p.full, p.kept), omega (arith, p.slot, p.full, p.kept))

Kept-fill :
    (puts : ℕ → Message) (n b : ℕ) (q : SendQueue)
    → Holds puts (n + 1) (fill_slot q (n % 512) (puts n))
    → 32 * b + 32 ≤ n + 1
    → (32 * b + 32 ≤ n → Kept puts n q b)
    → Kept puts (n + 1) (fill_slot q (n % 512) (puts n)) b
Kept-fill puts n b q h full before = elim (dec_le (32 * b + 32) n) [
  | yes old ↦ elim (before old) [
    | inl sent ↦ inl (
        subst (λ (l : List (List Message)). Mem (slice puts 32 (32 * b)) l)
          (sym (fill_slot-posted q (n % 512) (puts n))) sent)
    | inr (rest, t, kept) ↦
        let (left, later) = grows t in
        let p = Take-Pend (n + 1) (fill_slot q (n % 512) (puts n)).wait later h.pending in
        inr (left, later, (Take-kept p refl full (omega (arith, kept))).0)
  ]
  | no over ↦
      let last : (n % 512 % 32 ≡ 31) × (n % 512 ≡ (32 * b + 31) % 512) =
        (omega (arith, over, full), omega (arith, over, full)) in
      inr (fresh last.0 last.1 (omega (arith, over)))
]
  where
    grows :
        {w : ℕ} {rest : List ℕ}
        → Take w q.work rest
        → (left : List ℕ) × Take w (fill_slot q (n % 512) (puts n)).work left
    grows {w} {rest} t = elim (fill_slot-work q (n % 512) (puts n)) [
      | inl (e, last) ↦ (n % 512 ∷ rest, subst (λ l. Take w l (n % 512 ∷ rest)) (sym e) (next t))
      | inr (e, other) ↦ (rest, subst (λ l. Take w l rest) (sym e) t)
    ]

    fresh :
        n % 512 % 32 ≡ 31
        → n % 512 ≡ (32 * b + 31) % 512
        → n < 32 * b + 32
        → (rest : List ℕ) × Take ((32 * b + 31) % 512) (fill_slot q (n % 512) (puts n)).work rest
          × (n + 1 ≤ 32 * b + 512)
    fresh last same over = elim (fill_slot-work q (n % 512) (puts n)) [
      | inl (e, l) ↦ (
        q.work,
        subst (λ w. Take w (fill_slot q (n % 512) (puts n)).work q.work) same
            (subst (λ l. Take (n % 512) l q.work) (sym e) first),
        omega (arith, over),
      )
      | inr (e, other) ↦ absurd (other last)
    ]

Reach-Kept :
    {puts : ℕ → Message} {n : ℕ} {q : SendQueue} (b : ℕ)
    → Reach puts n q
    → 32 * b + 32 ≤ n
    → Kept puts n q b
unfolding send_page_work_handler
Reach-Kept b start full = absurd (omega (arith, full))
Reach-Kept {puts} b (put {n} {q} tests r small reads e) full =
    let same = (accepted_lem tests (Reach-Holds r) small reads e).0 in
    let after = subst (Holds puts (n + 1)) (sym same) (Reach-Holds (put tests r small reads e)) in
    subst (λ s. Kept puts (n + 1) s b) same
      (Kept-fill puts n b q after full (λ (old : 32 * b + 32 ≤ n). Reach-Kept b r old))
Reach-Kept {puts} b (give_up {n} tests r small reads e) full =
    subst (λ s. Kept puts n s b) (refused_lem tests (Reach-Holds r) small reads e).0
      (Reach-Kept b r full)
Reach-Kept {puts} b (work {n} {q} {w} r t) full = elim (Reach-Kept b r full) [
  | inl sent ↦ inl (Mem.tail sent)
  | inr (vs, s, kept) ↦ elim (ℕ_discrete ((32 * b + 31) % 512) w) [
    | yes e ↦
        let h = Reach-Holds r in
        let p = Take-Pend n q.wait t h.pending in
        let one = (Take-kept p (sym e) full (omega (arith, kept))).1 in
        inl (Mem.head (ap (λ (x : ℕ). slice puts 32 (32 * x)) (sym one) ∙ sym (gathered h p)))
    | no e ↦ let (left, later) = Take-other t s e in inr (left, later, kept)
  ]
]

Take-length : {w : ℕ} {ws rest : List ℕ} → Take w ws rest → length ws ≡ length rest + 1
Take-length first = ground arith
Take-length (next t) = ground (arith, Take-length t)

pub Reach-batches :
    {puts : ℕ → Message} {n : ℕ} {q : SendQueue}
    → Reach puts n q
    → n / 32 ≡ length q.posted + length q.work
unfolding send_page_work_handler
Reach-batches start = refl
Reach-batches {puts} (put {n} {q} tests r small reads e) =
    let same = (accepted_lem tests (Reach-Holds r) small reads e).0 in
    subst (λ (s : SendQueue). (n + 1) / 32 ≡ length s.posted + length s.work) same
      (grown (Reach-batches r) (fill_slot-work q (n % 512) (puts n)))
  where
    grown :
        n / 32 ≡ length q.posted + length q.work
        → (((fill_slot q (n % 512) (puts n)).work ≡ (n % 512) ∷ q.work) × (n % 512 % 32 ≡ 31))
          ⊎ (((fill_slot q (n % 512) (puts n)).work ≡ q.work) × (n % 512 % 32 ≢ 31))
        → (n + 1) / 32
          ≡ length (fill_slot q (n % 512) (puts n)).posted
            + length (fill_slot q (n % 512) (puts n)).work
    grown before (inl (w, last)) =
        rw (w, fill_slot-posted q (n % 512) (puts n)) (omega (arith, before, last))
    grown before (inr (w, other)) =
        rw (w, fill_slot-posted q (n % 512) (puts n)) (omega (arith, before, other))
Reach-batches (give_up {n} tests r small reads e) =
    subst (λ (s : SendQueue). n / 32 ≡ length s.posted + length s.work)
      (refused_lem tests (Reach-Holds r) small reads e).0 (Reach-batches r)
Reach-batches (work {n} {q} {w} r t) = omega (arith, Reach-batches r, Take-length t)

-- In every run, with at most 2^31 messages accepted, a batch of 32 accepted messages is never lost: it
-- was sent whole, or its work is scheduled and none of its slots is written again yet. And as many
-- batches were sent or are scheduled as were accepted.
pub Reach-delivers :
    {puts : ℕ → Message} {n : ℕ} {q : SendQueue} (b : ℕ)
    → Reach puts n q
    → 32 * b + 32 ≤ n
    → Kept puts n q b × (n / 32 ≡ length q.posted + length q.work)
Reach-delivers b r full = (Reach-Kept b r full, Reach-batches r)

-- The loop's tests when nothing clears the bit in the meantime.
abbrev pub steady : SendQueue → ℕ → Bool
steady q i = q.wait (batch_of q.msg_id)

accepts :
    (q : SendQueue) (m : Message) (tests : ℕ → Bool)
    → q.msg_id < 2 ^ 31
    → tests (last_test tests) ≡ false
    → (s : SendQueue) × (send_page q m tests ≡ accepted s)
accepts q m tests small off = elim (send_page-small q m tests small) [
  | inl (clear, sent) ↦ (fill_slot q (q.msg_id % 512) m, sent)
  | inr (on, sent) ↦ absurd (cc)
]

-- In a run of less than 2^31 accepted messages, a call that is refused can be made again with success:
-- a work is scheduled whose run clears the bit that the call waited for, so that the same call, made
-- right behind that run, is accepted.
pub refused-accepted :
    {puts : ℕ → Message} {n : ℕ} {q q' : SendQueue} (tests : ℕ → Bool)
    → Reach puts n q
    → n < 2 ^ 31
    → Reads q tests
    → send_page q (puts n) tests ≡ refused q'
    → (w : ℕ) × (rest : List ℕ) × (s : SendQueue) × Take w q'.work rest
      × (send_page
            (send_page_work_handler q' w rest)
            (puts n)
            (steady (send_page_work_handler q' w rest))
          ≡ accepted s)
unfolding send_page_work_handler
refused-accepted {puts} {n} {q} {q'} tests r small reads e =
    let after = Reach-Holds (give_up tests r small reads e) in
    let (same, on) = refused_lem tests (Reach-Holds r) small reads e in
    let (w, rest, t, here) =
      after.waiting (n % 512 / 32)
        (ap (λ (s : SendQueue). s.wait (n % 512 / 32)) (sym same) ∙ on) in
    let again = send_page_work_handler q' w rest in
    let place : w / 32 ≡ batch_of q'.msg_id =
      here ∙ ap (λ (x : ℕ). x % 512 / 32) (sym after.counts) in
    let (s, sent) =
      accepts again (puts n) (steady again) (rw after.counts small) (ground (arith, place)) in
    (w, rest, s, t, sent)
