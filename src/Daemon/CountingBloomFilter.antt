-- ===== src/Daemon/CountingBloomFilter.antt =====
-- daemon/counting_bloom_filter.hpp: the class CountingBloomFilter<Key_t>.
-- `hash_funcs i key` stands for `hash_funcs[i](&key, sizeof(key), f_seed)` of daemon/util/hash.h,
-- whose functions are other projects' code. A byte is a number below 256 and wraps when it is
-- decremented; a `unsigned long` of the bit array is a number below 2 ^ 64.
pub mod Counts
pub mod Ordinary
pub mod History
pub mod Overflow
pub mod Prime
mod Tests
use cleancache_rdma.Prelude.{
  ℕ, zero, suc, ◌+◌, ◌-◌, ◌*◌, ◌/◌, ◌%◌, ◌^◌, Bool, true, false, bit_and, bit_or, ltb, ◌==◌, not,
  if◌then◌else◌, Array, update,
}

pub record CountingBloomFilter : Type 0 where
  pub num_hash : ℕ
  pub num_bits : ℕ
  pub num_longs : ℕ
  pub cbf_byte_bitarr : Array ℕ
  pub bf_long_bitarr : Array ℕ

-- BITS_TO_LONGS, for a long of 8 bytes
abbrev pub bits_to_longs : ℕ → ℕ
bits_to_longs nr = (nr + 8 * 8 - 1) / (8 * 8)

-- The constructor: both arrays are zeroed.
unfoldable pub new : ℕ → ℕ → CountingBloomFilter
new num_hash num_bits = record {
  num_hash = num_hash;
  num_bits = num_bits;
  num_longs = bits_to_longs num_bits;
  cbf_byte_bitarr = λ i. 0;
  bf_long_bitarr = λ i. 0;
}

-- (uint32_t) -1, the filling of `idx_res`
abbrev pub no_index : ℕ
no_index = 2 ^ 32 - 1

-- One round of `Insert`: a byte that cannot grow restarts at 1.
unfoldable pub bump : Array ℕ → ℕ → Array ℕ
bump cells idx = update cells idx (if ltb (cells idx) 255 then cells idx + 1 else 1)

-- One round of `Remove`: `cbf_byte_bitarr_[idx]--` on a uint8_t.
unfoldable pub decrement : Array ℕ → ℕ → Array ℕ
decrement cells idx = update cells idx ((cells idx + 255) % 256)

-- `bf_long_bitarr_[idx / 64] |= 1UL << (idx % 64)`
unfoldable pub set_bit : Array ℕ → ℕ → Array ℕ
set_bit longs idx = update longs (idx / 64) (bit_or (longs (idx / 64)) (2 ^ (idx % 64)))

-- The loops of `ToOrdinaryBF`: the longs from `i` on are zeroed, then the bit of each nonzero byte is set.
unfoldable pub clear_from : ℕ → ℕ → Array ℕ → Array ℕ
clear_from zero i longs = longs
clear_from (suc n) i longs = clear_from n (i + 1) (update longs i 0)

unfoldable pub mirror_from : Array ℕ → ℕ → ℕ → Array ℕ → Array ℕ
mirror_from cells zero i longs = longs
mirror_from cells (suc n) i longs =
    mirror_from cells n (i + 1) (if ltb 0 (cells i) then set_bit longs i else longs)

unfoldable pub to_ordinary_bf : CountingBloomFilter → CountingBloomFilter
to_ordinary_bf f = record f {
  bf_long_bitarr =
      mirror_from f.cbf_byte_bitarr f.num_bits 0 (clear_from f.num_longs 0 f.bf_long_bitarr);
}

module _ (hash_funcs : ℕ → ℕ → ℕ) where
  unfoldable pub compute_hash : CountingBloomFilter → ℕ → ℕ → ℕ
  compute_hash f key salt = hash_funcs salt key % f.num_bits

  -- Each loop below runs over the `n` salts from `i` on.
  unfoldable pub insert_from : CountingBloomFilter → ℕ → ℕ → ℕ → Array ℕ → Array ℕ
  insert_from f o zero i cells = cells
  insert_from f o (suc n) i cells = insert_from f o n (i + 1) (bump cells (compute_hash f o i))

  unfoldable pub insert : CountingBloomFilter → ℕ → CountingBloomFilter
  insert f o = record f { cbf_byte_bitarr = insert_from f o f.num_hash 0 f.cbf_byte_bitarr }

  unfoldable pub might_contain_from : CountingBloomFilter → ℕ → ℕ → ℕ → Bool
  might_contain_from f o zero i = true
  might_contain_from f o (suc n) i =
      if f.cbf_byte_bitarr (compute_hash f o i) == 0
      then false
      else might_contain_from f o n (i + 1)

  -- `MightContain(o)`
  unfoldable pub might_contain : CountingBloomFilter → ℕ → Bool
  might_contain f o = might_contain_from f o f.num_hash 0

  -- `MightContain(o, idx_res)` stores each index before it tests the byte.
  unfoldable pub might_contain_idx_from : CountingBloomFilter → ℕ → ℕ → ℕ → Array ℕ → Bool × Array ℕ
  might_contain_idx_from f o zero i idx_res = (true, idx_res)
  might_contain_idx_from f o (suc n) i idx_res =
      let stored = update idx_res i (compute_hash f o i) in
      let rest = might_contain_idx_from f o n (i + 1) stored in
      if f.cbf_byte_bitarr (compute_hash f o i) == 0 then (false, stored) else rest

  unfoldable pub might_contain_idx : CountingBloomFilter → ℕ → Array ℕ → Bool × Array ℕ
  might_contain_idx f o idx_res = might_contain_idx_from f o f.num_hash 0 idx_res

  unfoldable pub remove_from : CountingBloomFilter → ℕ → Array ℕ → ℕ → ℕ → Array ℕ → Array ℕ
  remove_from f o idx_res zero i cells = cells
  remove_from f o idx_res (suc n) i cells =
      let idx = if not (idx_res i == no_index) then idx_res i else compute_hash f o i in
      remove_from f o idx_res n (i + 1) (decrement cells idx)

  unfoldable pub remove : CountingBloomFilter → ℕ → Bool × CountingBloomFilter
  remove f o =
      let (found, idx_res) = might_contain_idx f o (λ i. no_index) in
      if found
      then (
        true,
        record f { cbf_byte_bitarr = remove_from f o idx_res f.num_hash 0 f.cbf_byte_bitarr },
      )
      else (false, f)

  unfoldable pub bf_insert_from : CountingBloomFilter → ℕ → ℕ → ℕ → Array ℕ → Array ℕ
  bf_insert_from f o zero i longs = longs
  bf_insert_from f o (suc n) i longs =
      bf_insert_from f o n (i + 1) (set_bit longs (compute_hash f o i))

  unfoldable pub bf_insert : CountingBloomFilter → ℕ → CountingBloomFilter
  bf_insert f o = record f { bf_long_bitarr = bf_insert_from f o f.num_hash 0 f.bf_long_bitarr }

  unfoldable pub bf_might_contain_from : CountingBloomFilter → ℕ → ℕ → ℕ → Bool
  bf_might_contain_from f o zero i = true
  bf_might_contain_from f o (suc n) i =
      let idx = compute_hash f o i in
      if bit_and (f.bf_long_bitarr (idx / 64)) (2 ^ (idx % 64)) == 0
      then false
      else bf_might_contain_from f o n (i + 1)

  unfoldable pub bf_might_contain : CountingBloomFilter → ℕ → Bool
  bf_might_contain f o = bf_might_contain_from f o f.num_hash 0
