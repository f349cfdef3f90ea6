-- ===== src/Daemon/CountingBloomFilter/Counts.antt =====
-- The byte array as the number of times each index is hashed to by the keys held.
use cleancache_rdma.Prelude.{
  ℕ, zero, suc, ◌+◌, ◌%◌, ◌≤◌, ◌<◌, ◌≡◌, ◌≢◌, refl, ◌∙◌, true, not, Bool-cases, ◌⊎◌, inl, inr, List,
  [], ◌∷◌, ◌++◌, ◌==◌, if◌then◌else◌, Array, update, arith,
}
use cleancache_rdma.Daemon.CountingBloomFilter.{
  CountingBloomFilter, no_index, bump, decrement, compute_hash, insert_from, insert,
  might_contain_from, might_contain, might_contain_idx_from, might_contain_idx, remove_from, remove,
}

module _ (hash_funcs : ℕ → ℕ → ℕ) where
  -- how many of the `n` salts from `i` on hash `o` to index `j`
  abbrev pub hits : ℕ → ℕ → ℕ → ℕ → ℕ → ℕ
  hits num_bits o j zero i = 0
  hits num_bits o j (suc n) i =
      (if hash_funcs i o % num_bits == j then 1 else 0) + hits num_bits o j n (i + 1)

  pub insert_from-hits :
      (f : CountingBloomFilter) (o j n i : ℕ) (cells : Array ℕ)
      → cells j + hits f.num_bits o j n i ≤ 255
      → insert_from hash_funcs f o n i cells j ≡ cells j + hits f.num_bits o j n i
  unfolding compute_hash insert_from bump
  insert_from-hits f o j zero i cells fits = omega arith
  insert_from-hits f o j (suc n) i cells fits =
      ground (arith, insert_from-hits f o j n (i + 1) (bump cells (compute_hash hash_funcs f o i)))

  -- Bytes away from every index of the loop are left alone; so one hit is enough to be nonzero.
  pub might_contain_from-nonzero :
      (f : CountingBloomFilter) (o n i : ℕ)
      → ((j : ℕ) → 0 < hits f.num_bits o j n i → f.cbf_byte_bitarr j ≢ 0)
      → might_contain_from hash_funcs f o n i ≡ true
  unfolding compute_hash might_contain_from
  might_contain_from-nonzero f o zero i h = refl
  might_contain_from-nonzero f o (suc n) i h = ground (
    arith,
    h (compute_hash hash_funcs f o i),
    might_contain_from-nonzero f o n (i + 1) (λ j p. h j (omega arith)),
  )

  -- The two forms of `MightContain` agree, and the indices that the second stores are hashes.
  pub might_contain_idx_from-eq :
      (f : CountingBloomFilter) (o n i : ℕ) (idx_res : Array ℕ)
      → (might_contain_idx_from hash_funcs f o n i idx_res).0
        ≡ might_contain_from hash_funcs f o n i
  unfolding might_contain_idx_from might_contain_from
  might_contain_idx_from-eq f o zero i idx_res = refl
  might_contain_idx_from-eq f o (suc n) i idx_res = ground (
    arith,
    might_contain_idx_from-eq f o n (i + 1) (update idx_res i (compute_hash hash_funcs f o i)),
  )

  -- an entry of `idx_res` is unset or the hash
  abbrev pub Stored : CountingBloomFilter → ℕ → Array ℕ → Type 0
  Stored f o idx_res =
      (k : ℕ) → (idx_res k ≡ no_index) ⊎ (idx_res k ≡ compute_hash hash_funcs f o k)

  Stored-update :
      (f : CountingBloomFilter) (o i : ℕ) (idx_res : Array ℕ)
      → Stored f o idx_res
      → Stored f o (update idx_res i (compute_hash hash_funcs f o i))
  Stored-update f o i idx_res h k = ground (arith, h k)

  pub might_contain_idx_from-Stored :
      (f : CountingBloomFilter) (o n i : ℕ) (idx_res : Array ℕ)
      → Stored f o idx_res
      → Stored f o (might_contain_idx_from hash_funcs f o n i idx_res).1
  unfolding might_contain_idx_from
  might_contain_idx_from-Stored f o zero i idx_res h = h
  might_contain_idx_from-Stored f o (suc n) i idx_res h =
      let h' = Stored-update f o i idx_res h in
      elim (Bool-cases (f.cbf_byte_bitarr (compute_hash hash_funcs f o i) == 0)) [
        | inl e ↦ rw e h'
        | inr e ↦ rw e (might_contain_idx_from-Stored f o n (i + 1) _ h')
      ]

  pub remove_from-hits :
      (f : CountingBloomFilter) (o : ℕ) (idx_res : Array ℕ) (j n i : ℕ) (cells : Array ℕ)
      → Stored f o idx_res
      → hits f.num_bits o j n i ≤ cells j
      → cells j ≤ 255
      → remove_from hash_funcs f o idx_res n i cells j + hits f.num_bits o j n i ≡ cells j
  unfolding compute_hash remove_from decrement
  remove_from-hits f o idx_res j zero i cells stored enough small = omega arith
  remove_from-hits f o idx_res j (suc n) i cells stored enough small =
      let idx = if not (idx_res i == no_index) then idx_res i else compute_hash hash_funcs f o i in
      let same : idx ≡ compute_hash hash_funcs f o i = ground (arith, stored i) in
      rw same (
        ground (
          arith,
          remove_from-hits f o idx_res j n (i + 1) (decrement cells (compute_hash hash_funcs f o i))
              stored,
        ))

  -- how often the keys are hashed to `j`
  abbrev pub total : ℕ → ℕ → List ℕ → ℕ → ℕ
  total num_hash num_bits [] j = 0
  total num_hash num_bits (o ∷ keys) j =
      hits num_bits o j num_hash 0 + total num_hash num_bits keys j

  total-middle :
      (h m : ℕ) (front : List ℕ) (o : ℕ) (back : List ℕ) (j : ℕ)
      → total h m (front ++ o ∷ back) j ≡ hits m o j h 0 + total h m (front ++ back) j
  total-middle h m [] o back j = refl
  total-middle h m (x ∷ front) o back j = omega (arith, total-middle h m front o back j)

  -- the bytes are the counts of the keys, and every count fits a byte
  pub record Holds (f : CountingBloomFilter) (keys : List ℕ) : Type 0 where
    pub counted : (j : ℕ) → f.cbf_byte_bitarr j ≡ total f.num_hash f.num_bits keys j
    pub small : (j : ℕ) → total f.num_hash f.num_bits keys j ≤ 255

  pub Holds-contain :
      {f : CountingBloomFilter} (front : List ℕ) (o : ℕ) (back : List ℕ)
      → Holds f (front ++ o ∷ back)
      → might_contain hash_funcs f o ≡ true
  unfolding might_contain
  Holds-contain {f} front o back h =
      might_contain_from-nonzero f o f.num_hash 0
        (λ j p. omega (arith, h.counted j, total-middle f.num_hash f.num_bits front o back j))

  pub insert-Holds :
      {f : CountingBloomFilter} (keys : List ℕ) (o : ℕ)
      → Holds f keys
      → ((j : ℕ) → total f.num_hash f.num_bits (o ∷ keys) j ≤ 255)
      → Holds (insert hash_funcs f o) (o ∷ keys)
  unfolding insert
  insert-Holds {f} keys o h fits = record {
    counted = λ j. omega (
      arith,
      insert_from-hits f o j f.num_hash 0 f.cbf_byte_bitarr (omega (arith, fits j, h.counted j)),
      h.counted j,
    );
    small = fits;
  }

  pub remove-Holds :
      {f : CountingBloomFilter} (front : List ℕ) (o : ℕ) (back : List ℕ)
      → Holds f (front ++ o ∷ back)
      → ((remove hash_funcs f o).0 ≡ true) × Holds (remove hash_funcs f o).1 (front ++ back)
  unfolding remove might_contain might_contain_idx
  remove-Holds {f} front o back h =
      let found =
        might_contain_idx_from-eq f o f.num_hash 0 (λ i. no_index) ∙ Holds-contain front o back h in
      let stored = might_contain_idx_from-Stored f o f.num_hash 0 (λ i. no_index) (λ k. inl refl) in
      rw found (
        refl,
        record {
          counted = λ j. omega (
            arith,
            h.counted j,
            h.small j,
            total-middle f.num_hash f.num_bits front o back j,
            remove_from-hits f o _ j f.num_hash 0 f.cbf_byte_bitarr stored
                (omega (arith, h.counted j, total-middle f.num_hash f.num_bits front o back j))
                (omega (arith, h.counted j, h.small j)),
          );
          small = λ j. omega (arith, h.small j, total-middle f.num_hash f.num_bits front o back j);
        },
      )
