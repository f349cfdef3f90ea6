-- ===== src/Driver/FilterEvents/Tests.antt =====
-- A request for an update, and the completions that end it.
use cleancache_rdma.Prelude.{◌≡◌, refl, true, false, [], ◌∷◌}
use cleancache_rdma.Driver.Metadata.{Metadata, metadata_unblocking}
use cleancache_rdma.Driver.BloomFilter.{bf_unblocking, bf_merge}
use cleancache_rdma.Driver.FilterEvents.{
  FilterQueue, Completion, rdma_write, recv_rdma_with_imm, send_msg, update_filter, process_imm,
  post_recv, handle, filter_event_handler,
}

abbrev meta : Metadata
meta = record {
  bf = record {
    is_ordinary_bf = false;
    num_hash = 2;
    num_bits = 64;
    bitmap_size = 8;
    bitmap = λ i. 0;
    tmp_bitmap = λ i. 0;
    merging = 1;
  };
  cbf = record { num_hash = 2; num_bits = 8; bitmap_size = 64; byte_bitmap = λ i. 0 };
  ht = record { num_buckets = 3; lock_size = 16; num_locks = 1; hlistheads = λ i. [] };
  type = 1;
}

abbrev queue : FilterQueue
queue = record { meta = meta; filter_update_done = false; posted = 4095 }

abbrev update_end : Completion
update_end = record { status = 0; opcode = recv_rdma_with_imm; imm_data = 101 }

abbrev broken : Completion
broken = record { status = 5; opcode = rdma_write; imm_data = 0 }

runs :
    ((send_msg 0 0 100).pieces ≡ [])
    × ((filter_event_handler queue (update_end ∷ [])).1.meta.bf.merging ≡ 0)
    × ((filter_event_handler queue (update_end ∷ [])).1.filter_update_done ≡ true)
    × ((filter_event_handler queue (broken ∷ update_end ∷ [])).0 ≡ false)
    × ((filter_event_handler queue (broken ∷ update_end ∷ [])).1.posted ≡ 4095)
unfolding send_msg update_filter process_imm post_recv handle filter_event_handler
    metadata_unblocking bf_unblocking bf_merge
runs = (refl, refl, refl, refl, refl)
