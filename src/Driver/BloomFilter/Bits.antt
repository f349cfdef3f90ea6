-- ===== src/Driver/BloomFilter/Bits.antt =====
-- The bits of a bitmap.
use cleancache_rdma.Prelude.{
  ℕ, zero, suc, ◌+◌, ◌/◌, ◌%◌, ◌^◌, ◌≤◌, ◌<◌, ◌≡◌, refl, ◌∙◌, true, bit_or, ◌==◌, if◌then◌else◌,
  Array, update, arith,
}
use cleancache_rdma.Prelude.Bits.{bit, bit-le, bit-or, bit-pow, bit_and-pow_test}
use cleancache_rdma.Driver.BloomFilter.{
  BloomFilter, calc_bitidx, merge_from, compute_hash, add_from, probe_from,
}

-- bit `j` of a bitmap
abbrev pub bit_at : Array ℕ → ℕ → ℕ
bit_at longs j = bit (longs (j / 64)) (j % 64)

-- every bit below `n` that is set in the first bitmap is set in the second
abbrev pub Covers : ℕ → Array ℕ → Array ℕ → Type 0
Covers n a b = (j : ℕ) → j < n → bit_at a j ≡ 1 → bit_at b j ≡ 1

pub bit_at-or :
    (longs : Array ℕ) (i j : ℕ)
    → bit_at (update longs (i / 64) (bit_or (longs (i / 64)) (2 ^ (i % 64)))) j
      ≡ (if i == j then 1 else bit_at longs j)
bit_at-or longs i j = ground (
  arith,
  bit-or (longs (i / 64)) (2 ^ (i % 64)) (j % 64),
  bit-pow (i % 64) (j % 64),
  bit-le (longs (j / 64)) (j % 64),
)

merge_from-past :
    (tmp : Array ℕ) (n i : ℕ) (bitmap : Array ℕ) (k : ℕ)
    → k < i
    → merge_from tmp n i bitmap k ≡ bitmap k
unfolding merge_from
merge_from-past tmp zero i bitmap k h = refl
merge_from-past tmp (suc n) i bitmap k h =
    ground (arith, merge_from-past tmp n (i + 1) (update bitmap i (bit_or (bitmap i) (tmp i))) k)

pub merge_from-or :
    (tmp : Array ℕ) (n i : ℕ) (bitmap : Array ℕ) (k : ℕ)
    → i ≤ k
    → k < i + n
    → merge_from tmp n i bitmap k ≡ bit_or (bitmap k) (tmp k)
unfolding merge_from
merge_from-or tmp zero i bitmap k lo hi = absurd (omega arith)
merge_from-or tmp (suc n) i bitmap k lo hi =
    let next = update bitmap i (bit_or (bitmap i) (tmp i)) in
    ground (arith, merge_from-or tmp n (i + 1) next k, merge_from-past tmp n (i + 1) next k)

module _ (hash_funcs : ℕ → ℕ → ℕ) where
  pub compute_hash-lt :
      (f : BloomFilter) (i item : ℕ)
      → 0 < f.num_bits
      → compute_hash hash_funcs f i item < f.num_bits
  unfolding compute_hash
  compute_hash-lt f i item pos = grind arith

  -- Adding a key clears no bit.
  pub add_from-Covers :
      (f : BloomFilter) (item n i : ℕ) (bitmap : Array ℕ) (m : ℕ)
      → Covers m bitmap (add_from hash_funcs f item n i bitmap)
  unfolding add_from calc_bitidx
  add_from-Covers f item zero i bitmap m j below h = h
  add_from-Covers f item (suc n) i bitmap m j below h =
      add_from-Covers f item n (i + 1) _ m j below
        (ground (arith, bit_at-or bitmap (compute_hash hash_funcs f i item) j))

  -- A lookup reads no more than the bits below `num_bits`.
  pub probe_from-Covers :
      (f : BloomFilter) (a b : Array ℕ) (item n i : ℕ)
      → 0 < f.num_bits
      → Covers f.num_bits a b
      → probe_from hash_funcs f a item n i ≡ true
      → probe_from hash_funcs f b item n i ≡ true
  unfolding probe_from calc_bitidx
  probe_from-Covers f a b item zero i pos c h = refl
  probe_from-Covers f a b item (suc n) i pos c h =
      let k = compute_hash hash_funcs f i item in
      ground (
        arith,
        bit_and-pow_test (a (k / 64)) (k % 64),
        bit_and-pow_test (b (k / 64)) (k % 64),
        bit-le (a (k / 64)) (k % 64),
        c k (compute_hash-lt f i item pos),
        probe_from-Covers f a b item n (i + 1) pos c,
      )

  pub add_from-probe :
      (f : BloomFilter) (item n i : ℕ) (bitmap : Array ℕ)
      → 0 < f.num_bits
      → probe_from hash_funcs f (add_from hash_funcs f item n i bitmap) item n i ≡ true
  unfolding probe_from add_from calc_bitidx
  add_from-probe f item zero i bitmap pos = refl
  add_from-probe f item (suc n) i bitmap pos =
      let k = compute_hash hash_funcs f i item in
      let next = update bitmap (k / 64) (bit_or (bitmap (k / 64)) (2 ^ (k % 64))) in
      let last = add_from hash_funcs f item n (i + 1) next in
      let kept =
        add_from-Covers f item n (i + 1) next f.num_bits k (compute_hash-lt f i item pos)
          (bit_at-or bitmap k k ∙ ground arith) in
      rw (bit_and-pow_test (last (k / 64)) (k % 64), kept)
        (add_from-probe f item n (i + 1) next pos)
