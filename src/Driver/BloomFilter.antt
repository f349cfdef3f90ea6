-- ===== src/Driver/BloomFilter.antt =====
-- driver/filter/bloom_filter.{h,c}: the filter whose bitmap the server overwrites. `hash_funcs i key`
-- stands for `hash_funcs[i](data, len, f_seed)` of the bytes of a key; a `unsigned long` is a number
-- below 2 ^ 64. A caller's loop over `i` is a recursion over the rounds left.
pub mod Bits
pub mod Merge
mod Tests
use cleancache_rdma.Prelude.{
  ℕ, zero, suc, ◌+◌, ◌-◌, ◌*◌, ◌/◌, ◌%◌, ◌^◌, Bool, true, false, not, ◌&&◌, Option, none, some,
  bit_and, bit_or, ltb, ◌==◌, if◌then◌else◌, Array, update,
}

pub record BloomFilter : Type 0 where
  pub is_ordinary_bf : Bool
  pub num_hash : ℕ
  pub num_bits : ℕ
  pub bitmap_size : ℕ
  pub bitmap : Array ℕ
  pub tmp_bitmap : Array ℕ
  pub merging : ℕ

-- BITS_TO_LONGS of the kernel
abbrev pub bits_to_longs : ℕ → ℕ
bits_to_longs nr = (nr + 63) / 64

-- `bf_init`, whose two checked allocations succeed or not; `has_ptr` where it is given memory
unfoldable pub bf_init : Bool → Bool → ℕ → ℕ → Bool → Option BloomFilter
bf_init kzalloc_ok vzalloc_ok num_hash num_bits has_ptr =
    if kzalloc_ok && vzalloc_ok
    then some (record {
      is_ordinary_bf = not has_ptr;
      num_hash = num_hash;
      num_bits = num_bits;
      bitmap_size = bits_to_longs num_bits * 8;
      bitmap = λ i. 0;
      tmp_bitmap = λ i. 0;
      merging = 0;
    })
    else none

-- `calc_bitidx`: the index of the long, and its bit
unfoldable pub calc_bitidx : ℕ → ℕ × ℕ
calc_bitidx key_hash = (key_hash / 64, 2 ^ (key_hash % 64))

unfoldable pub check_merging : BloomFilter → Bool
check_merging f = ltb 0 f.merging

-- The loop of `bf_merge`.
unfoldable pub merge_from : Array ℕ → ℕ → ℕ → Array ℕ → Array ℕ
merge_from tmp zero i bitmap = bitmap
merge_from tmp (suc n) i bitmap =
    merge_from tmp n (i + 1) (update bitmap i (bit_or (bitmap i) (tmp i)))

unfoldable pub bf_merge : BloomFilter → BloomFilter
bf_merge f = record f { bitmap = merge_from f.tmp_bitmap (bits_to_longs f.num_bits) 0 f.bitmap }

-- The loop of `bf_blocking`.
unfoldable pub clear_from : ℕ → ℕ → Array ℕ → Array ℕ
clear_from zero i tmp = tmp
clear_from (suc n) i tmp = clear_from n (i + 1) (update tmp i 0)

unfoldable pub bf_blocking : BloomFilter → BloomFilter
bf_blocking f = record f {
  tmp_bitmap = clear_from (bits_to_longs f.num_bits) 0 f.tmp_bitmap;
  merging = 1;
}

unfoldable pub bf_unblocking : BloomFilter → BloomFilter
bf_unblocking f = bf_merge (record f { merging = 0 })

module _ (hash_funcs : ℕ → ℕ → ℕ) where
  unfoldable pub compute_hash : BloomFilter → ℕ → ℕ → ℕ
  compute_hash f i item = hash_funcs i item % f.num_bits

  -- the loop of `bf_add`, on either bitmap
  unfoldable pub add_from : BloomFilter → ℕ → ℕ → ℕ → Array ℕ → Array ℕ
  add_from f item zero i bitmap = bitmap
  add_from f item (suc n) i bitmap =
      let (long_idx, check_bit) = calc_bitidx (compute_hash f i item) in
      add_from f item n (i + 1) (update bitmap long_idx (bit_or (bitmap long_idx) check_bit))

  unfoldable pub bf_add : BloomFilter → ℕ → BloomFilter
  bf_add f item =
      if check_merging f
      then record f { tmp_bitmap = add_from f item f.num_hash 0 f.tmp_bitmap }
      else record f { bitmap = add_from f item f.num_hash 0 f.bitmap }

  -- the loop of `bf_might_contain`, on either bitmap
  unfoldable pub probe_from : BloomFilter → Array ℕ → ℕ → ℕ → ℕ → Bool
  probe_from f bitmap item zero i = true
  probe_from f bitmap item (suc n) i =
      let (long_idx, check_bit) = calc_bitidx (compute_hash f i item) in
      if bit_and (bitmap long_idx) check_bit == 0 then false else probe_from f bitmap item n (i + 1)

  unfoldable pub bf_might_contain : BloomFilter → ℕ → Bool
  bf_might_contain f item =
      if check_merging f && probe_from f f.tmp_bitmap item f.num_hash 0
      then true
      else probe_from f f.bitmap item f.num_hash 0
