-- ===== src/Daemon/CountingBloomFilter/Ordinary.antt =====
-- The bit array that `ToOrdinaryBF` makes of the byte array.
use cleancache_rdma.Prelude.{
  ℕ, zero, suc, ◌+◌, ◌/◌, ◌%◌, ◌^◌, ◌≤◌, ◌<◌, ◌≡◌, refl, ◌==◌, ltb, if◌then◌else◌, Bool-cases, inl,
  inr, Array, update, arith,
}
use cleancache_rdma.Prelude.Bits.{bit, bit-le, bit-or, bit-pow, bit-zero, bit_and-pow_test}
use cleancache_rdma.Daemon.CountingBloomFilter.{
  CountingBloomFilter, bits_to_longs, set_bit, clear_from, mirror_from, to_ordinary_bf,
  compute_hash, might_contain_from, might_contain, bf_might_contain_from, bf_might_contain,
}

-- bit `j` of the array
abbrev pub bit_at : Array ℕ → ℕ → ℕ
bit_at longs j = bit (longs (j / 64)) (j % 64)

pub bit_at-set_bit :
    (longs : Array ℕ) (i j : ℕ)
    → bit_at (set_bit longs i) j ≡ (if i == j then 1 else bit_at longs j)
unfolding set_bit
bit_at-set_bit longs i j = ground (
  arith,
  bit-or (longs (i / 64)) (2 ^ (i % 64)) (j % 64),
  bit-pow (i % 64) (j % 64),
  bit-le (longs (j / 64)) (j % 64),
)

clear_from-past : (n i : ℕ) (longs : Array ℕ) (k : ℕ) → k < i → clear_from n i longs k ≡ longs k
unfolding clear_from
clear_from-past zero i longs k h = refl
clear_from-past (suc n) i longs k h = ground (arith, clear_from-past n (i + 1) (update longs i 0) k)

clear_from-zero :
    (n i : ℕ) (longs : Array ℕ) (k : ℕ) → i ≤ k → k < i + n → clear_from n i longs k ≡ 0
unfolding clear_from
clear_from-zero zero i longs k lo hi = absurd (omega arith)
clear_from-zero (suc n) i longs k lo hi = ground (
  arith,
  clear_from-zero n (i + 1) (update longs i 0) k,
  clear_from-past n (i + 1) (update longs i 0) k,
)

mirror_from-past :
    (cells : Array ℕ) (n i : ℕ) (longs : Array ℕ) (j : ℕ)
    → j < i
    → bit_at (mirror_from cells n i longs) j ≡ bit_at longs j
unfolding mirror_from
mirror_from-past cells zero i longs j h = refl
mirror_from-past cells (suc n) i longs j h = elim (Bool-cases (ltb 0 (cells i))) [
  | inl e ↦ rw e (
      ground
        (arith, mirror_from-past cells n (i + 1) (set_bit longs i) j, bit_at-set_bit longs i j))
  | inr e ↦ rw e (mirror_from-past cells n (i + 1) longs j (omega arith))
]

mirror_from-bit :
    (cells : Array ℕ) (n i : ℕ) (longs : Array ℕ) (j : ℕ)
    → i ≤ j
    → j < i + n
    → bit_at longs j ≡ 0
    → (bit_at (mirror_from cells n i longs) j == 0) ≡ (cells j == 0)
unfolding mirror_from
mirror_from-bit cells zero i longs j lo hi clear = absurd (omega arith)
mirror_from-bit cells (suc n) i longs j lo hi clear = elim (Bool-cases (ltb 0 (cells i))) [
  | inl e ↦ rw e (
      ground (
        arith,
        mirror_from-past cells n (i + 1) (set_bit longs i) j,
        mirror_from-bit cells n (i + 1) (set_bit longs i) j,
        bit_at-set_bit longs i j,
      ))
  | inr e ↦ rw e (
      ground
        (arith, mirror_from-past cells n (i + 1) longs j, mirror_from-bit cells n (i + 1) longs j))
]

-- Each index below `num_bits` has its bit set exactly when its byte is not zero.
pub to_ordinary_bf-bit :
    (f : CountingBloomFilter) (j : ℕ)
    → f.num_longs ≡ bits_to_longs f.num_bits
    → j < f.num_bits
    → (bit_at (to_ordinary_bf f).bf_long_bitarr j == 0) ≡ (f.cbf_byte_bitarr j == 0)
unfolding to_ordinary_bf
to_ordinary_bf-bit f j shape below =
    let cleared = clear_from f.num_longs 0 f.bf_long_bitarr in
    let zeroed : cleared (j / 64) ≡ 0 =
      clear_from-zero f.num_longs 0 f.bf_long_bitarr (j / 64) (omega arith) (omega arith) in
    mirror_from-bit f.cbf_byte_bitarr f.num_bits 0 cleared j (omega arith) (omega arith)
      (rw zeroed (bit-zero (j % 64)))

module _ (hash_funcs : ℕ → ℕ → ℕ) where
  compute_hash-ordinary :
      (f : CountingBloomFilter) (o i : ℕ)
      → compute_hash hash_funcs (to_ordinary_bf f) o i ≡ compute_hash hash_funcs f o i
  unfolding compute_hash to_ordinary_bf
  compute_hash-ordinary f o i = refl

  pub compute_hash-lt :
      (f : CountingBloomFilter) (o i : ℕ)
      → 0 < f.num_bits
      → compute_hash hash_funcs f o i < f.num_bits
  unfolding compute_hash
  compute_hash-lt f o i pos = grind arith

  ordinary_from :
      (f : CountingBloomFilter) (o n i : ℕ)
      → f.num_longs ≡ bits_to_longs f.num_bits
      → 0 < f.num_bits
      → bf_might_contain_from hash_funcs (to_ordinary_bf f) o n i
        ≡ might_contain_from hash_funcs f o n i
  unfolding bf_might_contain_from might_contain_from
  ordinary_from f o zero i shape pos = refl
  ordinary_from f o (suc n) i shape pos =
      let idx = compute_hash hash_funcs f o i in
      rw (
        compute_hash-ordinary f o i,
        bit_and-pow_test ((to_ordinary_bf f).bf_long_bitarr (idx / 64)) (idx % 64),
        to_ordinary_bf-bit f idx shape (compute_hash-lt f o i pos),
        ordinary_from f o n (i + 1) shape pos,
      )

  -- With an array of as many longs as the constructor makes, and at least one bit, after
  -- `ToOrdinaryBF` the bit filter answers every key as the counting filter does.
  pub to_ordinary_bf-contain :
      (f : CountingBloomFilter) (o : ℕ)
      → f.num_longs ≡ bits_to_longs f.num_bits
      → 0 < f.num_bits
      → bf_might_contain hash_funcs (to_ordinary_bf f) o ≡ might_contain hash_funcs f o
  unfolding bf_might_contain might_contain to_ordinary_bf
  to_ordinary_bf-contain f o shape pos = ordinary_from f o f.num_hash 0 shape pos
