-- ===== src/Driver/AccessFilter/Tests.antt =====
-- The theorems on the access filter at concrete inputs.
use cleancache_rdma.Prelude.{◌≡◌, refl, Bool, true, false}
use cleancache_rdma.Driver.AccessFilter.{AccessFilter, bkt_id, af_upsert}

program : Bool
unfolding bkt_id af_upsert
program = true

-- a constant of 3 spreads these inodes well enough
abbrev filter : AccessFilter
filter = record {
  num_buckets = 4096;
  lock_size = 16;
  num_locks = 257;
  buckets = λ i. record { ino = 0; index = 0 };
}

runs :
    ((af_upsert 3 filter 5 100).0 ≡ true)
    × ((af_upsert 3 (af_upsert 3 filter 5 100).1 5 110).0 ≡ false)
    × ((af_upsert 3 (af_upsert 3 filter 5 100).1 5 132).0 ≡ true)
unfolding program
runs = (refl, refl, refl)
