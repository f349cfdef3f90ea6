-- ===== src/Driver/CountingFilter/Counts.antt =====
-- Additions to the filter, and lookups after them.
use cleancache_rdma.Prelude.{
  ℕ, zero, suc, ◌+◌, ◌%◌, ◌^◌, ◌≤◌, ◌≡◌, refl, Bool, true, false, ltb, ◌==◌, if◌then◌else◌, Array,
  update, arith,
}
use cleancache_rdma.Driver.CountingFilter.{
  CountingFilter, compute_hash, add_from, cbf_add, might_contain_from, cbf_might_contain,
}

-- a byte does not fall
abbrev Grows : Array ℕ → Array ℕ → Type 0
Grows a b = (j : ℕ) → a j ≤ b j

module _ (hash_funcs : ℕ → ℕ → ℕ) where
  add_from-Grows :
      (f : CountingFilter) (key n i : ℕ) (cells : Array ℕ)
      → Grows cells (add_from hash_funcs f key n i cells)
  unfolding add_from
  add_from-Grows f key zero i cells j = omega arith
  add_from-Grows f key (suc n) i cells j =
      let index = compute_hash hash_funcs f i key in
      let next =
        update cells index (if ltb (cells index) 255 then cells index + 1 else cells index) in
      ground (arith, add_from-Grows f key n (i + 1) next j)

  -- the lookup on any array
  abbrev holds : CountingFilter → Array ℕ → ℕ → ℕ → ℕ → Bool
  holds f cells key n i = might_contain_from hash_funcs (record f { byte_bitmap = cells }) key n i

  Grows-holds :
      (f : CountingFilter) (a b : Array ℕ) (key n i : ℕ)
      → Grows a b
      → holds f a key n i ≡ true
      → holds f b key n i ≡ true
  unfolding might_contain_from compute_hash
  Grows-holds f a b key zero i g h = refl
  Grows-holds f a b key (suc n) i g h =
      let index = hash_funcs i key % f.bitmap_size % 2 ^ 32 in
      ground (arith, g index, Grows-holds f a b key n (i + 1) g)

  add_from-holds :
      (f : CountingFilter) (key n i : ℕ) (cells : Array ℕ)
      → holds f (add_from hash_funcs f key n i cells) key n i ≡ true
  unfolding might_contain_from add_from compute_hash
  add_from-holds f key zero i cells = refl
  add_from-holds f key (suc n) i cells =
      let index = hash_funcs i key % f.bitmap_size % 2 ^ 32 in
      let next =
        update cells index (if ltb (cells index) 255 then cells index + 1 else cells index) in
      let last = add_from hash_funcs f key n (i + 1) next in
      let some_left : (last index == 0) ≡ false =
        ground (arith, add_from-Grows f key n (i + 1) next index) in
      rw some_left (add_from-holds f key n (i + 1) next)

  -- `cbf_add` makes its key contained, and no key that was contained is lost.
  pub cbf_add-contain :
      (f : CountingFilter) (key : ℕ)
      → (cbf_might_contain hash_funcs (cbf_add hash_funcs f key) key ≡ true)
        × ((k : ℕ)
            → cbf_might_contain hash_funcs f k ≡ true
            → cbf_might_contain hash_funcs (cbf_add hash_funcs f key) k ≡ true)
  unfolding cbf_might_contain cbf_add
  cbf_add-contain f key = (
    add_from-holds f key f.num_hash 0 f.byte_bitmap,
    λ k h.
        Grows-holds f f.byte_bitmap (add_from hash_funcs f key f.num_hash 0 f.byte_bitmap) k
          f.num_hash 0 (add_from-Grows f key f.num_hash 0 f.byte_bitmap) h,
  )
