-- ===== src/Driver/CountingFilter.antt =====
-- driver/filter/counting_bloom_filter.{h,c}: the client's counting filter. `hash_funcs i key` stands
-- for `hash_funcs[i](data, data_len, f_seed)`; a byte is a number below 256. The array has 8 bytes
-- for each bit, which the index runs over. The lock makes a call one step.
pub mod Counts
mod Tests
use cleancache_rdma.Prelude.{
  ℕ, zero, suc, ◌+◌, ◌-◌, ◌*◌, ◌%◌, ◌^◌, Bool, true, false, ◌&&◌, Option, none, some, ltb, ◌==◌,
  if◌then◌else◌, Array, update,
}

pub record CountingFilter : Type 0 where
  pub num_hash : ℕ
  pub num_bits : ℕ
  pub bitmap_size : ℕ
  pub byte_bitmap : Array ℕ

-- `cbf_init`, whose two allocations succeed or not
unfoldable pub cbf_init : Bool → Bool → ℕ → ℕ → Option CountingFilter
cbf_init kzalloc_ok vzalloc_ok num_hash num_bits =
    if kzalloc_ok && vzalloc_ok
    then some (record {
      num_hash = num_hash;
      num_bits = num_bits;
      bitmap_size = num_bits * 8;
      byte_bitmap = λ i. 0;
    })
    else none

module _ (hash_funcs : ℕ → ℕ → ℕ) where
  unfoldable pub compute_hash : CountingFilter → ℕ → ℕ → ℕ
  compute_hash f i key = hash_funcs i key % f.bitmap_size % 2 ^ 32

  unfoldable pub add_from : CountingFilter → ℕ → ℕ → ℕ → Array ℕ → Array ℕ
  add_from f key zero i cells = cells
  add_from f key (suc n) i cells =
      let index = compute_hash f i key in
      add_from f key n (i + 1)
        (update cells index (if ltb (cells index) 255 then cells index + 1 else cells index))

  unfoldable pub cbf_add : CountingFilter → ℕ → CountingFilter
  cbf_add f key = record f { byte_bitmap = add_from f key f.num_hash 0 f.byte_bitmap }

  unfoldable pub might_contain_from : CountingFilter → ℕ → ℕ → ℕ → Bool
  might_contain_from f key zero i = true
  might_contain_from f key (suc n) i =
      if f.byte_bitmap (compute_hash f i key) == 0
      then false
      else might_contain_from f key n (i + 1)

  unfoldable pub cbf_might_contain : CountingFilter → ℕ → Bool
  cbf_might_contain f key = might_contain_from f key f.num_hash 0

  -- The guard `>= 0` holds for every u8: a byte of 0 wraps to 255.
  unfoldable pub remove_from : CountingFilter → ℕ → ℕ → ℕ → Array ℕ → Array ℕ
  remove_from f key zero i cells = cells
  remove_from f key (suc n) i cells =
      let index = compute_hash f i key in
      remove_from f key n (i + 1) (update cells index ((cells index + 255) % 256))

  unfoldable pub cbf_remove : CountingFilter → ℕ → Bool × CountingFilter
  cbf_remove f key =
      if cbf_might_contain f key
      then (true, record f { byte_bitmap = remove_from f key f.num_hash 0 f.byte_bitmap })
      else (false, f)
