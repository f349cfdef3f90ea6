-- ===== src/Protocol/Filter/Bits.antt =====
-- What both filters answer a lookup by: the bits that a key is hashed to.
use native.Mathlib.Decide.{ℕ_discrete}
use cleancache_rdma.Prelude.{
  ℕ, zero, suc, ◌+◌, ◌/◌, ◌%◌, ◌^◌, ◌≤◌, ◌<◌, ◌≡◌, ◌⊎◌, refl, ◌∙◌, true, false, Bool, Array, arith,
  ◌==◌, inl, inr, Bool-cases, if◌then◌else◌, bit_and,
}
use cleancache_rdma.Prelude.Bits.{bit, bit-le, bit-or, bit_and-pow_test}
use cleancache_rdma.Driver.BloomFilter.{
  BloomFilter, bits_to_longs, check_merging, calc_bitidx, compute_hash, add_from, probe_from,
  bf_merge, bf_unblocking, bf_add, bf_might_contain as bf_might_contain_at_client,
}
use cleancache_rdma.Driver.BloomFilter.Bits.{
  bit_at, Covers, merge_from-or, add_from-Covers, add_from-probe,
}
use cleancache_rdma.Daemon.CountingBloomFilter.{
  CountingBloomFilter, bf_might_contain_from, bf_might_contain, to_ordinary_bf, might_contain,
  compute_hash as compute_hash_at_server,
}
use cleancache_rdma.Daemon.CountingBloomFilter.Ordinary.{to_ordinary_bf-contain}
use cleancache_rdma.Daemon.CountingBloomFilter as Server

-- a round of either lookup that goes on
passed :
    (x k : ℕ) (rest : Bool)
    → (if bit_and x (2 ^ k) == 0 then false else rest) ≡ true
    → (bit x k ≡ 1) × (rest ≡ true)
passed x k rest h = (ground (arith, h, bit_and-pow_test x k, bit-le x k), ground (arith, h))

mod-lt : (a m : ℕ) → 0 < m → a % m < m
mod-lt a m pos = grind arith

module _ (hash_funcs : ℕ → ℕ → ℕ) where
  -- The `n` bits from the `i`-th on, of those that a key is hashed to among `m`, are set.
  abbrev pub AreSet : ℕ → Array ℕ → ℕ → ℕ → ℕ → Type 0
  AreSet m bitmap key n i = (j : ℕ) → i ≤ j → j < i + n → bit_at bitmap (hash_funcs j key % m) ≡ 1

  pub probe_from-AreSet :
      (f : BloomFilter) (bitmap : Array ℕ) (key n i : ℕ)
      → probe_from hash_funcs f bitmap key n i ≡ true
      → AreSet f.num_bits bitmap key n i
  unfolding probe_from compute_hash calc_bitidx
  probe_from-AreSet f bitmap key zero i h j lo hi = absurd (omega arith)
  probe_from-AreSet f bitmap key (suc n) i h j lo hi =
      let k = hash_funcs i key % f.num_bits in
      let (set, rest) = passed (bitmap (k / 64)) (k % 64) _ h in
      elim (ℕ_discrete j i) [
        | yes e ↦ rw e set
        | no e ↦
            probe_from-AreSet f bitmap key n (i + 1) rest j (omega (arith, lo, e))
              (omega (arith, hi))
      ]

  pub AreSet-probe_from :
      (f : BloomFilter) (bitmap : Array ℕ) (key n i : ℕ)
      → AreSet f.num_bits bitmap key n i
      → probe_from hash_funcs f bitmap key n i ≡ true
  unfolding probe_from compute_hash calc_bitidx
  AreSet-probe_from f bitmap key zero i h = refl
  AreSet-probe_from f bitmap key (suc n) i h =
      let k = hash_funcs i key % f.num_bits in
      rw (bit_and-pow_test (bitmap (k / 64)) (k % 64), h i (omega arith) (omega arith))
        (AreSet-probe_from f bitmap key n (i + 1)
          (λ j lo hi. h j (omega (arith, lo)) (omega (arith, hi))))

  lookup-AreSet :
      (g : CountingBloomFilter) (key n i : ℕ)
      → bf_might_contain_from hash_funcs g key n i ≡ true
      → AreSet g.num_bits g.bf_long_bitarr key n i
  unfolding bf_might_contain_from compute_hash_at_server
  lookup-AreSet g key zero i h j lo hi = absurd (omega arith)
  lookup-AreSet g key (suc n) i h j lo hi =
      let k = hash_funcs i key % g.num_bits in
      let (set, rest) = passed (g.bf_long_bitarr (k / 64)) (k % 64) _ h in
      elim (ℕ_discrete j i) [
        | yes e ↦ rw e set
        | no e ↦ lookup-AreSet g key n (i + 1) rest j (omega (arith, lo, e)) (omega (arith, hi))
      ]

  -- The array that the server makes has the bits of each key that its filter contains.
  pub to_ordinary_bf-AreSet :
      (g : CountingBloomFilter) (key : ℕ)
      → g.num_longs ≡ Server.bits_to_longs g.num_bits
      → 0 < g.num_bits
      → might_contain hash_funcs g key ≡ true
      → AreSet g.num_bits (to_ordinary_bf g).bf_long_bitarr key g.num_hash 0
  unfolding bf_might_contain to_ordinary_bf
  to_ordinary_bf-AreSet g key shape pos h =
      lookup-AreSet (to_ordinary_bf g) key g.num_hash 0
        (to_ordinary_bf-contain hash_funcs g key shape pos ∙ h)

  pub AreSet-Covers :
      (m : ℕ) (a b : Array ℕ) (key n i : ℕ)
      → 0 < m
      → Covers m a b
      → AreSet m a key n i
      → AreSet m b key n i
  AreSet-Covers m a b key n i pos c h j lo hi =
      c (hash_funcs j key % m) (mod-lt (hash_funcs j key) m pos) (h j lo hi)

  -- the key's bits are set in the bitmap that the server writes, or in the other
  abbrev pub InBitmap : BloomFilter → ℕ → Type 0
  InBitmap f key = AreSet f.num_bits f.bitmap key f.num_hash 0

  abbrev pub InTmp : BloomFilter → ℕ → Type 0
  InTmp f key = AreSet f.num_bits f.tmp_bitmap key f.num_hash 0

  -- `bf_might_contain` finds the key.
  abbrev pub Found : BloomFilter → ℕ → Type 0
  Found f key = ((check_merging f ≡ true) × InTmp f key) ⊎ InBitmap f key

  pub Found-bf_might_contain :
      (f : BloomFilter) (key : ℕ) → Found f key → bf_might_contain_at_client hash_funcs f key ≡ true
  unfolding bf_might_contain_at_client
  Found-bf_might_contain f key (inl (merging, h)) =
      rw (merging, AreSet-probe_from f f.tmp_bitmap key f.num_hash 0 h)
  Found-bf_might_contain f key (inr h) =
      ground (arith, AreSet-probe_from f f.bitmap key f.num_hash 0 h)

  -- a filter that has lost no bit
  pub record Grows (f g : BloomFilter) : Type 0 where
    pub num_hash : g.num_hash ≡ f.num_hash
    pub num_bits : g.num_bits ≡ f.num_bits
    pub merging : check_merging g ≡ check_merging f
    pub in_tmp : Covers f.num_bits f.tmp_bitmap g.tmp_bitmap
    pub in_bitmap : Covers f.num_bits f.bitmap g.bitmap

  pub Grows-InTmp :
      (f g : BloomFilter) (key : ℕ) → 0 < f.num_bits → Grows f g → InTmp f key → InTmp g key
  Grows-InTmp f g key pos grows h =
      rw (grows.num_bits, grows.num_hash)
        (AreSet-Covers f.num_bits f.tmp_bitmap g.tmp_bitmap key f.num_hash 0 pos grows.in_tmp h)

  pub Grows-Found :
      (f g : BloomFilter) (key : ℕ) → 0 < f.num_bits → Grows f g → Found f key → Found g key
  Grows-Found f g key pos grows (inl (merging, h)) =
      inl (grows.merging ∙ merging, Grows-InTmp f g key pos grows h)
  Grows-Found f g key pos grows (inr h) = inr (
      rw (grows.num_bits, grows.num_hash)
        (AreSet-Covers f.num_bits f.bitmap g.bitmap key f.num_hash 0 pos grows.in_bitmap h))

  pub bf_add-Grows : (f : BloomFilter) (key : ℕ) → Grows f (bf_add hash_funcs f key)
  unfolding bf_add check_merging
  bf_add-Grows f key = elim (Bool-cases (check_merging f)) [
    | inl e ↦ rw e (record {
      num_hash = refl;
      num_bits = refl;
      merging = refl;
      in_tmp = add_from-Covers hash_funcs f key f.num_hash 0 f.tmp_bitmap f.num_bits;
      in_bitmap = λ j below h. h;
    })
    | inr e ↦ rw e (record {
      num_hash = refl;
      num_bits = refl;
      merging = refl;
      in_tmp = λ j below h. h;
      in_bitmap = add_from-Covers hash_funcs f key f.num_hash 0 f.bitmap f.num_bits;
    })
  ]

  pub bf_add-InTmp :
      (f : BloomFilter) (key : ℕ)
      → 0 < f.num_bits
      → check_merging f ≡ true
      → InTmp (bf_add hash_funcs f key) key
  unfolding bf_add
  bf_add-InTmp f key pos merging = rw merging (
      probe_from-AreSet f (add_from hash_funcs f key f.num_hash 0 f.tmp_bitmap) key f.num_hash 0
        (add_from-probe hash_funcs f key f.num_hash 0 f.tmp_bitmap pos))

  pub bf_add-Found :
      (f : BloomFilter) (key : ℕ) → 0 < f.num_bits → Found (bf_add hash_funcs f key) key
  bf_add-Found f key pos = elim (Bool-cases (check_merging f)) [
    | inl e ↦ inl ((bf_add-Grows f key).merging ∙ e, bf_add-InTmp f key pos e)
    | inr e ↦ inr (added f key pos e)
  ]
    where
      added :
          (f : BloomFilter) (key : ℕ)
          → 0 < f.num_bits
          → check_merging f ≡ false
          → InBitmap (bf_add hash_funcs f key) key
      added f key pos e =
          unfold bf_add in
          (rw e (
            probe_from-AreSet f (add_from hash_funcs f key f.num_hash 0 f.bitmap) key f.num_hash 0
              (add_from-probe hash_funcs f key f.num_hash 0 f.bitmap pos)))

  merged :
      (f : BloomFilter) (j : ℕ)
      → j < f.num_bits
      → (bit_at f.bitmap j ≡ 1 → bit_at (bf_unblocking f).bitmap j ≡ 1)
        × (bit_at f.tmp_bitmap j ≡ 1 → bit_at (bf_unblocking f).bitmap j ≡ 1)
  unfolding bf_unblocking bf_merge
  merged f j below =
      let at =
        merge_from-or f.tmp_bitmap (bits_to_longs f.num_bits) 0 f.bitmap (j / 64) (omega arith)
          (omega arith) in
      let both = bit-or (f.bitmap (j / 64)) (f.tmp_bitmap (j / 64)) (j % 64) in
      let small = bit-le (f.bitmap (j / 64)) (j % 64) in
      let small' = bit-le (f.tmp_bitmap (j / 64)) (j % 64) in
      rw at (
        (λ h. ground (arith, h, both, small, small')),
        (λ h. ground (arith, h, both, small, small')),
      )

  -- Behind the merge both bitmaps are in the one that remains.
  pub bf_unblocking-InBitmap :
      (f : BloomFilter) (key : ℕ) → 0 < f.num_bits → Found f key → InBitmap (bf_unblocking f) key
  unfolding bf_unblocking bf_merge
  bf_unblocking-InBitmap f key pos (inl (merging, h)) =
      AreSet-Covers f.num_bits f.tmp_bitmap (bf_unblocking f).bitmap key f.num_hash 0 pos
        (λ j below e. (merged f j below).1 e) h
  bf_unblocking-InBitmap f key pos (inr h) =
      AreSet-Covers f.num_bits f.bitmap (bf_unblocking f).bitmap key f.num_hash 0 pos
        (λ j below e. (merged f j below).0 e) h
