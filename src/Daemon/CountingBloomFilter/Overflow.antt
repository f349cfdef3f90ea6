-- ===== src/Daemon/CountingBloomFilter/Overflow.antt =====
-- What insertion and removal do to a byte, at the ends of its range included.
use cleancache_rdma.Prelude.{
  ℕ, zero, suc, ◌+◌, ◌*◌, ◌%◌, ◌≤◌, ◌<◌, ◌≡◌, ◌≢◌, refl, ◌∙◌, true, false, not, ◌==◌, if◌then◌else◌,
  inl, Array, arith,
}
use cleancache_rdma.Daemon.CountingBloomFilter.{
  CountingBloomFilter, no_index, bump, decrement, compute_hash, insert_from, insert,
  might_contain_from, might_contain, might_contain_idx, remove_from, remove,
}
use cleancache_rdma.Daemon.CountingBloomFilter.Counts.{
  hits, Stored, insert_from-hits, might_contain_from-nonzero, might_contain_idx_from-eq,
  might_contain_idx_from-Stored, remove_from-hits,
}

module _ (hash_funcs : ℕ → ℕ → ℕ) where
  insert_from-nonzero :
      (f : CountingBloomFilter) (o j n i : ℕ) (cells : Array ℕ)
      → 0 < hits hash_funcs f.num_bits o j n i + cells j
      → insert_from hash_funcs f o n i cells j ≢ 0
  unfolding insert_from bump compute_hash
  insert_from-nonzero f o j zero i cells h = omega arith
  insert_from-nonzero f o j (suc n) i cells h =
      ground (arith, insert_from-nonzero f o j n (i + 1) (bump cells (hash_funcs i o % f.num_bits)))

  -- Right after `Insert(o)` the filter reports `o`, even where a byte was full.
  pub insert-contain :
      (f : CountingBloomFilter) (o : ℕ) → might_contain hash_funcs (insert hash_funcs f o) o ≡ true
  unfolding might_contain insert
  insert-contain f o =
      might_contain_from-nonzero hash_funcs (insert hash_funcs f o) o f.num_hash 0
        (λ j p. insert_from-nonzero f o j f.num_hash 0 f.cbf_byte_bitarr (omega arith))

  -- `Remove(o)` of a key that the filter reports takes every hit of `o` from the bytes.
  remove-found :
      (f : CountingBloomFilter) (o : ℕ)
      → might_contain hash_funcs f o ≡ true
      → ((remove hash_funcs f o).0 ≡ true)
        × ((remove hash_funcs f o).1 ≡ record f {
          cbf_byte_bitarr =
              remove_from hash_funcs f o
                (might_contain_idx hash_funcs f o (λ i. no_index)).1
                f.num_hash
                0
                f.cbf_byte_bitarr;
        })
  unfolding remove might_contain might_contain_idx
  remove-found f o found =
      rw (might_contain_idx_from-eq hash_funcs f o f.num_hash 0 (λ i. no_index) ∙ found)
        (refl, refl)

  fresh-Stored :
      (f : CountingBloomFilter) (o : ℕ)
      → Stored hash_funcs f o (might_contain_idx hash_funcs f o (λ i. no_index)).1
  unfolding might_contain_idx
  fresh-Stored f o =
      might_contain_idx_from-Stored hash_funcs f o f.num_hash 0 (λ i. no_index) (λ k. inl refl)

  -- If every byte has room for the hits of `o`, then `Remove(o)` after `Insert(o)` succeeds and
  -- gives every byte its old value.
  pub remove-insert :
      (f : CountingBloomFilter) (o : ℕ)
      → ((j : ℕ) → f.cbf_byte_bitarr j + hits hash_funcs f.num_bits o j f.num_hash 0 ≤ 255)
      → ((remove hash_funcs (insert hash_funcs f o) o).0 ≡ true)
        × ((j : ℕ)
            → (remove hash_funcs (insert hash_funcs f o) o).1.cbf_byte_bitarr j
              ≡ f.cbf_byte_bitarr j)
  unfolding insert
  remove-insert f o room =
      let f' = insert hash_funcs f o in
      let found = remove-found f' o (insert-contain f o) in
      (
        found.0,
        λ j. rw found.1 (
            omega (
              arith,
              room j,
              insert_from-hits hash_funcs f o j f.num_hash 0 f.cbf_byte_bitarr (room j),
              remove_from-hits hash_funcs f' o _ j f.num_hash 0 f'.cbf_byte_bitarr
                  (fresh-Stored f' o)
                  (omega (
                    arith,
                    insert_from-hits hash_funcs f o j f.num_hash 0 f.cbf_byte_bitarr (room j),
                  ))
                  (omega (
                    arith,
                    room j,
                    insert_from-hits hash_funcs f o j f.num_hash 0 f.cbf_byte_bitarr (room j),
                  )),
            )),
      )

  remove_from-mod :
      (f : CountingBloomFilter) (o : ℕ) (idx_res : Array ℕ) (j n i : ℕ) (cells : Array ℕ)
      → Stored hash_funcs f o idx_res
      → cells j < 256
      → remove_from hash_funcs f o idx_res n i cells j
        ≡ (cells j + 255 * hits hash_funcs f.num_bits o j n i) % 256
  unfolding remove_from decrement compute_hash
  remove_from-mod f o idx_res j zero i cells stored small = omega arith
  remove_from-mod f o idx_res j (suc n) i cells stored small =
      let hash = hash_funcs i o % f.num_bits in
      let idx = if not (idx_res i == no_index) then idx_res i else hash in
      let same : idx ≡ hash = ground (arith, stored i) in
      rw same
        (ground (arith, remove_from-mod f o idx_res j n (i + 1) (decrement cells hash) stored))

  -- `Remove` does not look at a byte again between two decrements: a key that is reported, and is
  -- hashed to some index more often than its byte counts, wraps that byte round to a large value.
  pub remove-wraps :
      (f : CountingBloomFilter) (o j : ℕ)
      → might_contain hash_funcs f o ≡ true
      → f.cbf_byte_bitarr j < hits hash_funcs f.num_bits o j f.num_hash 0
      → hits hash_funcs f.num_bits o j f.num_hash 0 ≤ 255
      → (remove hash_funcs f o).1.cbf_byte_bitarr j + hits hash_funcs f.num_bits o j f.num_hash 0
        ≡ f.cbf_byte_bitarr j + 256
  remove-wraps f o j found over few = rw (remove-found f o found).1 (
      omega (
        arith,
        remove_from-mod f o _ j f.num_hash 0 f.cbf_byte_bitarr (fresh-Stored f o) (omega arith),
      ))

  insert_from-restarts :
      (f : CountingBloomFilter) (o j n i : ℕ) (cells : Array ℕ)
      → hits hash_funcs f.num_bits o j n i ≡ 1
      → cells j ≡ 255
      → insert_from hash_funcs f o n i cells j ≡ 1
  unfolding insert_from bump compute_hash
  insert_from-restarts f o j zero i cells once full = absurd (omega arith)
  insert_from-restarts f o j (suc n) i cells once full =
      let after = bump cells (hash_funcs i o % f.num_bits) in
      ground (
        arith,
        insert_from-restarts f o j n (i + 1) after,
        insert_from-hits hash_funcs f o j n (i + 1) after,
      )

  might_contain_from-zero :
      (f : CountingBloomFilter) (o j n i : ℕ)
      → 0 < hits hash_funcs f.num_bits o j n i
      → f.cbf_byte_bitarr j ≡ 0
      → might_contain_from hash_funcs f o n i ≡ false
  unfolding might_contain_from compute_hash
  might_contain_from-zero f o j zero i h z = absurd (omega arith)
  might_contain_from-zero f o j (suc n) i h z =
      ground (arith, might_contain_from-zero f o j n (i + 1))

  -- A full byte restarts at 1, so inserting and removing a key that is hashed to it once empties
  -- it: every key that is hashed to it is then reported as absent, with 255 insertions still held.
  pub restart-loses :
      (f : CountingBloomFilter) (o j other : ℕ)
      → hits hash_funcs f.num_bits o j f.num_hash 0 ≡ 1
      → f.cbf_byte_bitarr j ≡ 255
      → 0 < hits hash_funcs f.num_bits other j f.num_hash 0
      → might_contain hash_funcs (remove hash_funcs (insert hash_funcs f o) o).1 other ≡ false
  unfolding insert might_contain
  restart-loses f o j other once full hit =
      let f' = insert hash_funcs f o in
      let one = insert_from-restarts f o j f.num_hash 0 f.cbf_byte_bitarr once full in
      rw (remove-found f' o (insert-contain f o)).1 (
        might_contain_from-zero _ other j f.num_hash 0 hit (
          omega (
            arith,
            one,
            remove_from-hits hash_funcs f' o _ j f.num_hash 0 f'.cbf_byte_bitarr (fresh-Stored f' o)
                (omega (arith, one)) (omega (arith, one)),
          )))
