-- ===== src/Driver/Request/Tests.antt =====
-- The places of two requests of one queue, of different types.
use cleancache_rdma.Prelude.{ℕ, ◌+◌, ◌≤◌, ◌≡◌, ◌⊎◌, inl, inr, refl, arith}
use cleancache_rdma.Daemon.Imm.{msg_read, msg_inv_page}
use cleancache_rdma.Driver.Request.{default_config, get_metadata_offset, metadata_mr_size}
use cleancache_rdma.Driver.Request.Layout.{Apart, size_of, get_metadata_offset-Apart}

abbrev queue_id : ℕ
queue_id = 7

abbrev msg_id : ℕ
msg_id = 511

-- the last request of each type at the last queue
get_metadata_offset-Apart_example :
    (get_metadata_offset default_config queue_id msg_id msg_inv_page + size_of msg_inv_page
      ≤ metadata_mr_size default_config)
    × (((queue_id ≡ queue_id)
          × (msg_inv_page ≡ msg_read)
          × ((msg_inv_page ≡ msg_read) ⊎ (msg_id ≡ msg_id)))
        ⊎ Apart
            (get_metadata_offset default_config queue_id msg_id msg_inv_page)
            (size_of msg_inv_page)
            (get_metadata_offset default_config queue_id msg_id msg_read)
            (size_of msg_read))
unfolding default_config
get_metadata_offset-Apart_example =
    get_metadata_offset-Apart queue_id msg_id msg_inv_page queue_id msg_id msg_read
      (record { queue = omega arith; number = omega arith; known = inr refl })
      (record { queue = omega arith; number = omega arith; known = inl refl })
