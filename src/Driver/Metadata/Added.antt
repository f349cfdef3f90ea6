-- ===== src/Driver/Metadata/Added.antt =====
-- Additions to the metadata, and lookups after them.
use cleancache_rdma.Prelude.{
  ℕ, ◌≤◌, ◌<◌, ◌≡◌, refl, ◌∙◌, true, ◌==◌, Bool-cases, ==_iff, inl, inr, arith,
}
use cleancache_rdma.Driver.BloomFilter.{
  BloomFilter, check_merging, bf_add, bf_might_contain, add_from,
}
use cleancache_rdma.Driver.BloomFilter.Bits.{add_from-probe}
use cleancache_rdma.Driver.BloomFilter.Merge.{probe_from-same}
use cleancache_rdma.Driver.CountingFilter.Counts.{cbf_add-contain}
use cleancache_rdma.Driver.Hashtable.Map.{hashtable_get-insert}
use cleancache_rdma.Driver.Metadata.{
  Metadata, is_bf, counting_bf, hash_table, metadata_add, metadata_contain,
}

-- a kind that `metadata_init` knows, and a bit filter of at least one bit
pub record IsKnown (m : Metadata) : Type 0 where
  pub first : 0 < m.type
  pub last : m.type ≤ hash_table
  pub bits : 0 < m.bf.num_bits

module _ (hash_funcs : ℕ → ℕ → ℕ) where
  bf_add-contain :
      (f : BloomFilter) (key : ℕ)
      → 0 < f.num_bits
      → bf_might_contain hash_funcs (bf_add hash_funcs f key) key ≡ true
  unfolding bf_might_contain bf_add check_merging
  bf_add-contain f key pos = elim (Bool-cases (check_merging f)) [
    | inl e ↦
        let found =
          probe_from-same hash_funcs f
            (record f { tmp_bitmap = add_from hash_funcs f key f.num_hash 0 f.tmp_bitmap })
            (add_from hash_funcs f key f.num_hash 0 f.tmp_bitmap) key f.num_hash 0 refl
          ∙ add_from-probe hash_funcs f key f.num_hash 0 f.tmp_bitmap pos in
        rw e (rw (found, e))
    | inr e ↦ rw e (
        rw e (
          probe_from-same hash_funcs f
            (record f { bitmap = add_from hash_funcs f key f.num_hash 0 f.bitmap })
            (add_from hash_funcs f key f.num_hash 0 f.bitmap) key f.num_hash 0 refl
          ∙ add_from-probe hash_funcs f key f.num_hash 0 f.bitmap pos))
  ]

  -- After `metadata_add` of a key, in a structure of a known kind whose bit filter has a bit,
  -- `metadata_contain` holds of it.
  pub metadata_add-contain :
      (m : Metadata) (key : ℕ)
      → IsKnown m
      → metadata_contain hash_funcs (metadata_add hash_funcs m key) key ≡ true
  unfolding metadata_contain metadata_add
  metadata_add-contain m key known = elim (Bool-cases (is_bf m.type)) [
    | inl e ↦ rw e (rw e (bf_add-contain m.bf key known.bits))
    | inr e ↦ elim (Bool-cases (m.type == counting_bf)) [
      | inl c ↦ rw (e, c) (rw (e, c) (cbf_add-contain hash_funcs m.cbf key).0)
      | inr c ↦
          let h : (m.type == hash_table) ≡ true = ground (arith, known.first, known.last) in
          let self : (key == key) ≡ true = (==_iff key key).1 refl in
          rw (e, c, h)
            (rw (e, c, h) (rw ((hashtable_get-insert hash_funcs m.ht key 0).0 key, self)))
    ]
  ]
