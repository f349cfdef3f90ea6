-- ===== src/Driver/BloomFilter/Merge.antt =====
-- A filter update: the server overwrites the bitmap while keys are added.
use cleancache_rdma.Prelude.{
  ℕ, zero, suc, ◌+◌, ◌/◌, ◌%◌, ◌<◌, ◌≡◌, refl, ap, ◌∙◌, true, List, [], ◌∷◌, Array, arith,
}
use cleancache_rdma.Prelude.Bits.{bit-or, bit-le}
use cleancache_rdma.Driver.BloomFilter.{
  BloomFilter, bits_to_longs, check_merging, bf_merge, bf_blocking, bf_unblocking, bf_add,
  bf_might_contain, add_from, probe_from, compute_hash,
}
use cleancache_rdma.Driver.BloomFilter.Bits.{
  Covers, merge_from-or, add_from-Covers, probe_from-Covers, add_from-probe,
}

-- What happens to a filter between `bf_blocking` and `bf_unblocking`: a key is added, or the server
-- writes the bitmap.
pub data Event : Type 0 where
  add : ℕ → Event
  server_write : Array ℕ → Event

-- a key is among those that are added
pub data Adds (key : ℕ) : List Event → Type 0 where
  here : {rest : List Event} → Adds key (add key ∷ rest)
  there : {e : Event} {rest : List Event} → Adds key rest → Adds key (e ∷ rest)

module _ (hash_funcs : ℕ → ℕ → ℕ) where
  unfoldable pub run : List Event → BloomFilter → BloomFilter
  run [] f = f
  run (add key ∷ rest) f = run rest (bf_add hash_funcs f key)
  run (server_write bitmap ∷ rest) f = run rest (record f { bitmap = bitmap })

  -- in a merge, a later filter has the bits that were set in `tmp_bitmap`
  pub record Later (f g : BloomFilter) : Type 0 where
    pub same_num_hash : g.num_hash ≡ f.num_hash
    pub same_num_bits : g.num_bits ≡ f.num_bits
    pub merging : check_merging g ≡ true
    pub covers : Covers f.num_bits f.tmp_bitmap g.tmp_bitmap

  Later-add : (f g : BloomFilter) (key : ℕ) → Later f g → Later f (bf_add hash_funcs g key)
  unfolding bf_add check_merging
  Later-add f g key l = rw l.merging (record {
    same_num_hash = l.same_num_hash;
    same_num_bits = l.same_num_bits;
    merging = l.merging;
    covers = λ j below h.
        add_from-Covers hash_funcs g key g.num_hash 0 g.tmp_bitmap f.num_bits j below
          (l.covers j below h);
  })

  pub run-Later : (es : List Event) (f g : BloomFilter) → Later f g → Later f (run es g)
  unfolding run check_merging
  run-Later [] f g l = l
  run-Later (add key ∷ rest) f g l =
      run-Later rest f (bf_add hash_funcs g key) (Later-add f g key l)
  run-Later (server_write bitmap ∷ rest) f g l =
      run-Later rest f (record g { bitmap = bitmap })
        (record {
          same_num_hash = l.same_num_hash;
          same_num_bits = l.same_num_bits;
          merging = l.merging;
          covers = l.covers;
        })

  -- `key` is found in `tmp_bitmap`
  abbrev pub InTmp : BloomFilter → ℕ → Type 0
  InTmp f key = probe_from hash_funcs f f.tmp_bitmap key f.num_hash 0 ≡ true

  pub probe_from-same :
      (f g : BloomFilter) (bitmap : Array ℕ) (key n i : ℕ)
      → g.num_bits ≡ f.num_bits
      → probe_from hash_funcs g bitmap key n i ≡ probe_from hash_funcs f bitmap key n i
  unfolding probe_from compute_hash
  probe_from-same f g bitmap key zero i e = refl
  probe_from-same f g bitmap key (suc n) i e = rw (e, probe_from-same f g bitmap key n (i + 1) e)

  Later-InTmp :
      (f g : BloomFilter) (key : ℕ) → 0 < f.num_bits → Later f g → InTmp f key → InTmp g key
  Later-InTmp f g key pos l h =
      ap (λ n. probe_from hash_funcs g g.tmp_bitmap key n 0) l.same_num_hash
      ∙ probe_from-same f g g.tmp_bitmap key f.num_hash 0 l.same_num_bits
      ∙ probe_from-Covers hash_funcs f f.tmp_bitmap g.tmp_bitmap key f.num_hash 0 pos l.covers h

  Later-self : (f : BloomFilter) → check_merging f ≡ true → Later f f
  Later-self f m = record {
    same_num_hash = refl;
    same_num_bits = refl;
    merging = m;
    covers = λ j below h. h;
  }

  added-InTmp :
      (f : BloomFilter) (key : ℕ)
      → 0 < f.num_bits
      → check_merging f ≡ true
      → InTmp (bf_add hash_funcs f key) key
  unfolding bf_add
  added-InTmp f key pos m = rw m (
      probe_from-same f
        (record f { tmp_bitmap = add_from hash_funcs f key f.num_hash 0 f.tmp_bitmap }) _ key
        f.num_hash 0 refl
      ∙ add_from-probe hash_funcs f key f.num_hash 0 f.tmp_bitmap pos)

  pub run-InTmp :
      (es : List Event) (f : BloomFilter) (key : ℕ)
      → 0 < f.num_bits
      → check_merging f ≡ true
      → Adds key es
      → InTmp (run es f) key
  unfolding run check_merging
  run-InTmp [] f key pos m a = elim a [ ]
  run-InTmp (add key ∷ rest) f _ pos m here =
      let g = bf_add hash_funcs f key in
      let l = Later-add f f key (Later-self f m) in
      Later-InTmp g (run rest g) key (rw l.same_num_bits pos)
        (run-Later rest g g (Later-self g l.merging)) (added-InTmp f key pos m)
  run-InTmp (add k ∷ rest) f key pos m (there a) =
      let l = Later-add f f k (Later-self f m) in
      run-InTmp rest (bf_add hash_funcs f k) key (rw l.same_num_bits pos) l.merging a
  run-InTmp (server_write bitmap ∷ rest) f key pos m (there a) =
      run-InTmp rest (record f { bitmap = bitmap }) key pos m a

  bf_unblocking-Covers : (f : BloomFilter) → Covers f.num_bits f.tmp_bitmap (bf_unblocking f).bitmap
  unfolding bf_unblocking bf_merge
  bf_unblocking-Covers f j below h =
      let at =
        merge_from-or f.tmp_bitmap (bits_to_longs f.num_bits) 0 f.bitmap (j / 64) (omega arith)
          (omega arith) in
      rw at (
        ground (
          arith,
          h,
          bit-or (f.bitmap (j / 64)) (f.tmp_bitmap (j / 64)) (j % 64),
          bit-le (f.bitmap (j / 64)) (j % 64),
        ))

  unblocked-contain :
      (f : BloomFilter) (key : ℕ)
      → 0 < f.num_bits
      → InTmp f key
      → bf_might_contain hash_funcs (bf_unblocking f) key ≡ true
  unfolding bf_might_contain check_merging bf_unblocking bf_merge
  unblocked-contain f key pos h =
      probe_from-same f (bf_unblocking f) (bf_unblocking f).bitmap key f.num_hash 0 refl
      ∙ probe_from-Covers hash_funcs f f.tmp_bitmap (bf_unblocking f).bitmap key f.num_hash 0 pos
          (bf_unblocking-Covers f) h

  -- In a filter of at least one bit, a key that is added between `bf_blocking` and `bf_unblocking` is
  -- still contained after the update, whatever the server wrote to the bitmap and in whatever order
  -- the additions and the writes came.
  pub bf_unblocking-contain :
      (f : BloomFilter) (es : List Event) (key : ℕ)
      → 0 < f.num_bits
      → Adds key es
      → bf_might_contain hash_funcs (bf_unblocking (run es (bf_blocking f))) key ≡ true
  unfolding bf_blocking check_merging
  bf_unblocking-contain f es key pos a =
      let g = bf_blocking f in
      let l = run-Later es g g (Later-self g refl) in
      unblocked-contain (run es g) key (rw l.same_num_bits pos) (run-InTmp es g key pos refl a)

  -- While the update lasts, too, in a filter of at least one bit, a key is contained once it is added.
  pub bf_blocking-contain :
      (f : BloomFilter) (es : List Event) (key : ℕ)
      → 0 < f.num_bits
      → Adds key es
      → bf_might_contain hash_funcs (run es (bf_blocking f)) key ≡ true
  unfolding bf_might_contain bf_blocking check_merging
  bf_blocking-contain f es key pos a =
      let g = bf_blocking f in
      let l = run-Later es g g (Later-self g refl) in rw (l.merging, run-InTmp es g key pos refl a)
