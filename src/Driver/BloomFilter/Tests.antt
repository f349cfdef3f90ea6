-- ===== src/Driver/BloomFilter/Tests.antt =====
-- Runs of the filter, and its theorems at concrete inputs.
use cleancache_rdma.Prelude.{ℕ, ◌+◌, ◌*◌, ◌≡◌, refl, Bool, true, false, List, [], ◌∷◌, arith}
use cleancache_rdma.Driver.BloomFilter.{
  BloomFilter, calc_bitidx, check_merging, merge_from, bf_merge, clear_from, bf_blocking,
  bf_unblocking, compute_hash, add_from, bf_add, probe_from, bf_might_contain,
}
use cleancache_rdma.Driver.BloomFilter.Merge.{
  Event, add, server_write, here, run, bf_unblocking-contain,
}

abbrev spread : ℕ → ℕ → ℕ
spread i key = (i + 1) * key

program : Bool
unfolding calc_bitidx check_merging merge_from bf_merge clear_from bf_blocking bf_unblocking
    compute_hash add_from bf_add probe_from bf_might_contain run
program = true

abbrev filter : BloomFilter
filter = record {
  is_ordinary_bf = false;
  num_hash = 2;
  num_bits = 100;
  bitmap_size = 16;
  bitmap = λ i. 0;
  tmp_bitmap = λ i. 0;
  merging = 0;
}

-- key 7 is added, then the server writes an empty bitmap
abbrev events : List Event
events = add 7 ∷ server_write (λ i. 0) ∷ []

runs :
    (bf_might_contain spread (bf_unblocking (run spread events (bf_blocking filter))) 7 ≡ true)
    × (bf_might_contain spread (bf_unblocking (run spread events (bf_blocking filter))) 8 ≡ false)
    × (bf_might_contain spread (run spread events filter) 7 ≡ false)
unfolding program
runs = (refl, refl, refl)

-- `bf_unblocking` clears the flag before it merges: a lookup between the two steps misses key 7.
between_steps :
    bf_might_contain spread (record (run spread events (bf_blocking filter)) { merging = 0 }) 7
    ≡ false
unfolding program
between_steps = refl

bf_unblocking-contain_example :
    bf_might_contain spread (bf_unblocking (run spread events (bf_blocking filter))) 7 ≡ true
bf_unblocking-contain_example = bf_unblocking-contain spread filter events 7 (omega arith) here
