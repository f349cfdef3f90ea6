-- ===== src/Driver/Main/Tests.antt =====
-- A put that is counted, and keys of pages, at concrete inputs.
use cleancache_rdma.Prelude.{
  ℕ, ◌+◌, ◌*◌, ◌/◌, ◌^◌, ◌≡◌, ◌↔◌, refl, true, false, not, ◌&&◌, inr, [], if◌then◌else◌, arith,
}
use cleancache_rdma.Prelude.Int.{negsuc}
use cleancache_rdma.Driver.AccessFilter.{AccessFilter, af_upsert}
use cleancache_rdma.Driver.Metadata.{Metadata}
use cleancache_rdma.Driver.Backend.{Policy}
use cleancache_rdma.Driver.Longkey.{make_longkey}
use cleancache_rdma.Driver.Longkey.Apart.{make_longkey-apart}
use cleancache_rdma.Driver.Main.{Stats, dcc_put_page}
use cleancache_rdma.Driver.Main.Counted.{behind_filter, dcc_put_page-counts}

abbrev by_key : ℕ → ℕ → ℕ
by_key salt key = key

abbrev empty : Metadata
empty = record {
  bf = record {
    is_ordinary_bf = true;
    num_hash = 2;
    num_bits = 64;
    bitmap_size = 8;
    bitmap = λ i. 0;
    tmp_bitmap = λ i. 0;
    merging = 0;
  };
  cbf = record { num_hash = 2; num_bits = 8; bitmap_size = 64; byte_bitmap = λ i. 0 };
  ht = record { num_buckets = 3; lock_size = 16; num_locks = 1; hlistheads = λ i. [] };
  type = 1;
}

abbrev filter : AccessFilter
filter = record {
  num_buckets = 4096;
  lock_size = 16;
  num_locks = 257;
  buckets = λ i. record { ino = 0; index = 0 };
}

abbrev policy : Policy
policy = record { exclusive_policy = false; metadata_type = 1; af_enable = true }

abbrev zeroed : Stats
zeroed = record {
  clean_puts = 0;
  redirtied_puts = 0;
  access_filtered_puts = 0;
  blocked_puts = 0;
  rejected_puts = 0;
  false_positive_gets = 0;
  crc_error_gets = 0;
  valid_invalidates = 0;
}

dcc_put_page-counts_example :
    (dcc_put_page by_key 3 0 policy filter empty zeroed 5 100 false false (negsuc 5)).stats ≡ (
      if policy.af_enable && not (af_upsert 3 filter 5 100).0
      then record zeroed { access_filtered_puts = 1 }
      else behind_filter by_key policy empty (make_longkey 0 5 100) false (negsuc 5) zeroed)
dcc_put_page-counts_example =
    dcc_put_page-counts by_key 3 0 policy filter empty zeroed 5 100 false false (negsuc 5)
      (inr refl)

make_longkey-apart_example :
    ((make_longkey 1 5 100 ≡ make_longkey 1 6 100)
      ↔ ((◌≡◌ {A = ℕ} 1 1) × (◌≡◌ {A = ℕ} 5 6) × (◌≡◌ {A = ℕ} 100 100)))
    × (make_longkey 1 (2 * (5 / 2)) (2 ^ 28 + 100) ≡ make_longkey 1 (2 * (5 / 2) + 1) 100)
make_longkey-apart_example =
    make_longkey-apart 1 5 100 1 6 100 (omega arith) (omega arith) (omega arith) (omega arith)
      (omega arith) (omega arith)
