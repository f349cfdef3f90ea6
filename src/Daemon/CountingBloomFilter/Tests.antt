-- ===== src/Daemon/CountingBloomFilter/Tests.antt =====
-- Runs of the filter, and its theorems at concrete inputs.
use cleancache_rdma.Prelude.{
  ℕ, ◌+◌, ◌*◌, ◌≡◌, refl, Bool, true, false, [], ◌∷◌, arith, ◌≤◌, ◌<◌, ◌⊎◌,
}
use cleancache_rdma.Daemon.CountingBloomFilter.{
  CountingBloomFilter, bump, decrement, compute_hash, new, insert_from, insert, might_contain_from,
  might_contain, might_contain_idx_from, might_contain_idx, remove_from, remove, set_bit,
  clear_from, mirror_from, to_ordinary_bf, bf_insert_from, bf_insert, bf_might_contain_from,
  bf_might_contain,
}
use cleancache_rdma.Daemon.CountingBloomFilter.History.{
  History, fresh, added, removed, History-contain,
}
use cleancache_rdma.Daemon.CountingBloomFilter.Ordinary.{to_ordinary_bf-contain}
use cleancache_rdma.Daemon.CountingBloomFilter.Overflow.{remove-wraps, restart-loses}
use cleancache_rdma.Daemon.CountingBloomFilter.Prime.{
  IsPrime, undivided_from, is_prime, prime_from, generate_prime, generate_prime-first,
}

abbrev sample_hash : ℕ → ℕ → ℕ
sample_hash salt key = key * 7 + salt * 3

-- every salt gives the same index
abbrev colliding_hash : ℕ → ℕ → ℕ
colliding_hash salt key = key

program : Bool
unfolding bump decrement compute_hash new insert_from insert might_contain_from might_contain
    might_contain_idx_from might_contain_idx remove_from remove set_bit clear_from mirror_from
    to_ordinary_bf bf_insert_from bf_insert bf_might_contain_from bf_might_contain
program = true

abbrev held : CountingBloomFilter
held = insert sample_hash (insert sample_hash (new 2 67) 9) 4

runs :
    (might_contain sample_hash held 9 ≡ true)
    × (might_contain sample_hash held 8 ≡ false)
    × ((remove sample_hash held 8).0 ≡ false)
    × (might_contain sample_hash (remove sample_hash held 9).1 9 ≡ false)
    × (might_contain sample_hash (remove sample_hash held 9).1 4 ≡ true)
    × (bf_might_contain sample_hash (to_ordinary_bf held) 9 ≡ true)
    × (bf_might_contain sample_hash (to_ordinary_bf held) 8 ≡ false)
    × (bf_might_contain sample_hash (bf_insert sample_hash (new 2 67) 8) 8 ≡ true)
unfolding program
runs = (refl, refl, refl, refl, refl, refl, refl, refl)

held-History : History sample_hash held (4 ∷ 9 ∷ [])
unfolding new insert
held-History = added 4 (added 9 (fresh 2 67) (λ j. ground arith)) (λ j. ground arith)

History-contain_example : might_contain sample_hash (remove sample_hash held 4).1 9 ≡ true
History-contain_example =
    History-contain sample_hash [] 9 [] (removed [] 4 (9 ∷ []) held-History refl) refl

to_ordinary_bf-contain_example :
    bf_might_contain sample_hash (to_ordinary_bf held) 8 ≡ might_contain sample_hash held 8
unfolding new insert
to_ordinary_bf-contain_example = to_ordinary_bf-contain sample_hash held 8 refl (omega arith)

abbrev flat : ℕ → ℕ → CountingBloomFilter
flat num_hash count = record {
  num_hash = num_hash;
  num_bits = 4;
  num_longs = 1;
  cbf_byte_bitarr = λ i. count;
  bf_long_bitarr = λ i. 0;
}

-- Both hashes of key 3 fall on byte 3, which counts 1: removing it leaves 255.
wraps_at_one : (remove colliding_hash (flat 2 1) 3).1.cbf_byte_bitarr 3 + 2 ≡ 1 + 256
wraps_at_one =
    remove-wraps colliding_hash (flat 2 1) 3 3 (unfold program in refl) (omega arith) (omega arith)

loses_at_restart :
    might_contain colliding_hash
      (remove colliding_hash (insert colliding_hash (flat 1 255) 3) 3).1
      7
    ≡ false
loses_at_restart = restart-loses colliding_hash (flat 1 255) 3 3 7 refl refl (omega arith)

generate_prime-first_example :
    (8 ≤ generate_prime 8 20)
    × (generate_prime 8 20 ≤ 20)
    × ((generate_prime 8 20 ≡ 20) ⊎ IsPrime (generate_prime 8 20))
    × ((9 < 8) ⊎ ((generate_prime 8 20 ≤ 9) ⊎ (¬ IsPrime 9)))
generate_prime-first_example = generate_prime-first 8 20 9 (omega arith)

-- the first prime from 24 on, and none from 24 to 28
primes : (generate_prime 24 40 ≡ 29) × (generate_prime 24 28 ≡ 28)
unfolding generate_prime prime_from is_prime undivided_from
primes = (refl, refl)
