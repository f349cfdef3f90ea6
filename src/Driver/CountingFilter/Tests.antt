-- ===== src/Driver/CountingFilter/Tests.antt =====
-- Runs of the filter, and its theorem at a concrete input.
use cleancache_rdma.Prelude.{ℕ, ◌+◌, ◌*◌, ◌≡◌, refl, Bool, true, false, ◌==◌, if◌then◌else◌}
use cleancache_rdma.Driver.CountingFilter.{
  CountingFilter, compute_hash, add_from, cbf_add, might_contain_from, cbf_might_contain,
  remove_from, cbf_remove,
}
use cleancache_rdma.Driver.CountingFilter.Counts.{cbf_add-contain}

abbrev spread : ℕ → ℕ → ℕ
spread i key = (i + 1) * key

abbrev meet : ℕ → ℕ → ℕ
meet i key = key

program : Bool
unfolding compute_hash add_from cbf_add might_contain_from cbf_might_contain remove_from cbf_remove
program = true

abbrev empty : CountingFilter
empty = record { num_hash = 2; num_bits = 8; bitmap_size = 64; byte_bitmap = λ i. 0 }

-- The byte of a key whose two hashes meet was counted once (by another key): the removal takes it
-- below 0, to 255.
abbrev counted_once : CountingFilter
counted_once = record {
  num_hash = 2;
  num_bits = 8;
  bitmap_size = 64;
  byte_bitmap = λ i. if i == 5 then 1 else 0;
}

runs :
    ((cbf_remove spread (cbf_add spread empty 5) 5).0 ≡ true)
    × (cbf_might_contain spread (cbf_remove spread (cbf_add spread empty 5) 5).1 5 ≡ false)
    × ((cbf_remove meet counted_once 5).1.byte_bitmap 5 ≡ 255)
unfolding program
runs = (refl, refl, refl)

added :
    (cbf_might_contain spread (cbf_add spread empty 5) 5 ≡ true)
    × ((k : ℕ)
        → cbf_might_contain spread empty k ≡ true
        → cbf_might_contain spread (cbf_add spread empty 5) k ≡ true)
added = cbf_add-contain spread empty 5
