-- ===== src/Driver/FilterEvents/Reposted.antt =====
-- The receive buffers of the filter queue.
use cleancache_rdma.Prelude.{
  ℕ, ◌+◌, ◌≡◌, List, [], ◌∷◌, ◌==◌, not, if◌then◌else◌, Bool-cases, inl, inr, arith,
}
use cleancache_rdma.Driver.FilterEvents.{
  Opcode, rdma_write, send, recv, recv_rdma_with_imm, other, Completion, FilterQueue, update_filter,
  process_imm, post_recv, handle, is_other, filter_event_handler,
}

-- one for a completion that used up a receive buffer
abbrev pub received : Opcode → ℕ
received recv = 1
received recv_rdma_with_imm = 1
received opcode = 0

-- the receive buffers that the completions of one call used up, up to the one that ends it
abbrev pub used_up : List Completion → ℕ
used_up [] = 0
used_up (wc ∷ rest) =
    if not (wc.status == 0)
    then 0
    else if is_other wc.opcode
    then 0
    else received wc.opcode + used_up rest

handle-posted :
    (q : FilterQueue) (imm_data : ℕ) (opcode : Opcode)
    → (handle q imm_data opcode).posted ≡ q.posted + received opcode
unfolding handle post_recv process_imm update_filter
handle-posted q imm_data rdma_write = omega arith
handle-posted q imm_data send = omega arith
handle-posted q imm_data recv = ground arith
handle-posted q imm_data recv_rdma_with_imm = ground arith
handle-posted q imm_data other = omega arith

-- The handler posts one buffer for each that a completion used up, before it ends.
pub filter_event_handler-posted :
    (q : FilterQueue) (wcs : List Completion)
    → (filter_event_handler q wcs).1.posted ≡ q.posted + used_up wcs
unfolding filter_event_handler
filter_event_handler-posted q [] = omega arith
filter_event_handler-posted q (wc ∷ rest) =
    let after = filter_event_handler-posted (handle q wc.imm_data wc.opcode) rest in
    let here = handle-posted q wc.imm_data wc.opcode in
    elim (Bool-cases (not (wc.status == 0))) [
      | inl e ↦ rw e (omega arith)
      | inr e ↦ elim (Bool-cases (is_other wc.opcode)) [
        | inl o ↦ rw (e, o) (omega arith)
        | inr o ↦ rw (e, o) (omega (arith, after, here))
      ]
    ]
