-- ===== src/Protocol/Filter/Updates.antt =====
-- The steps of a filter update keep the invariant of the two filters.
use mathlib.Core.List.{Memᴰ as Mem}
use cleancache_rdma.Prelude.{ℕ, ◌≡◌, ◌⊎◌, ◌∙◌, false, Array, inl, inr, refl, sym, subst, ap}
use cleancache_rdma.Driver.BloomFilter.{check_merging, bf_blocking, bf_unblocking, bf_merge}
use cleancache_rdma.Daemon.CountingBloomFilter.{to_ordinary_bf}
use cleancache_rdma.Daemon.CountingBloomFilter.Counts.{Holds, Holds-contain}
use cleancache_rdma.Protocol.Filter.{
  System, Phase, idle, asked, answered, written, do_update_filter, answer, rdma_write,
  update_filter, process_imm, filter_update_end,
}
use cleancache_rdma.Protocol.Filter.Bits.{
  AreSet, InTmp, Found, bf_unblocking-InBitmap, to_ordinary_bf-AreSet,
}
use cleancache_rdma.Protocol.Filter.Coherent.{Held, is_updating, IsCoherent, split_of_mem}

abbrev bitmap_of : Phase → Array ℕ
bitmap_of (answered bitmap) = bitmap
bitmap_of phase = λ i. 0

module _ (hash_funcs : ℕ → ℕ → ℕ) where
  pub begin-IsCoherent :
      (s : System)
      → s.phase ≡ idle
      → IsCoherent hash_funcs s
      → IsCoherent hash_funcs (do_update_filter s)
  unfolding do_update_filter bf_blocking is_updating check_merging
  begin-IsCoherent s e c = record {
    paired = record {
      num_hash = c.paired.num_hash;
      num_bits = c.paired.num_bits;
      some_bit = c.paired.some_bit;
      num_longs = c.paired.num_longs;
    };
    holds = c.holds;
    merging = refl;
    known = λ k h. known k (c.known k h);
    sent = λ k p m. inl m;
    snapped = λ k bitmap p h. absurd (cc);
  }
    where
      quiet : check_merging s.client ≡ false
      quiet = c.merging ∙ rw e refl

      known :
          (k : ℕ)
          → Mem k s.missed ⊎ Found hash_funcs s.client k
          → Mem k s.missed ⊎ Found hash_funcs (bf_blocking s.client) k
      known k (inl m) = inl m
      known k (inr (inl (merging, h))) = absurd (cc)
      known k (inr (inr h)) = inr (inr h)

  pub answer-IsCoherent :
      (s : System) → s.phase ≡ asked → IsCoherent hash_funcs s → IsCoherent hash_funcs (answer s)
  unfolding answer to_ordinary_bf is_updating
  answer-IsCoherent s e c = record {
    paired = record {
      num_hash = c.paired.num_hash;
      num_bits = c.paired.num_bits;
      some_bit = c.paired.some_bit;
      num_longs = c.paired.num_longs;
    };
    holds = record { counted = c.holds.counted; small = c.holds.small };
    merging = c.merging ∙ rw e refl;
    known = c.known;
    sent = λ k p m. absurd (cc);
    snapped = λ k bitmap p h.
        subst
          (λ b.
            Mem k s.since
            ⊎ (InTmp hash_funcs s.client k
                ⊎ AreSet hash_funcs s.client.num_bits b k s.client.num_hash 0))
          (ap bitmap_of p) (snapped k h);
  }
    where
      snapped :
          (k : ℕ)
          → Held s k
          → Mem k s.since
            ⊎ (InTmp hash_funcs s.client k
                ⊎ AreSet hash_funcs s.client.num_bits
                    (to_ordinary_bf s.server).bf_long_bitarr
                    k
                    s.client.num_hash
                    0)
      snapped k (inr m) = elim (c.sent k e m) [ inl old ↦ inl old | inr h ↦ inr (inl h) ]
      snapped k (inl m) =
          let (front, back, split) = split_of_mem m in
          let contained =
            Holds-contain hash_funcs front k back
              (subst (Holds hash_funcs s.server) split c.holds) in
          inr (
            inr (
              rw (sym c.paired.num_bits, sym c.paired.num_hash)
                (to_ordinary_bf-AreSet hash_funcs s.server k c.paired.num_longs
                  (rw c.paired.num_bits c.paired.some_bit) contained)))

  pub write-IsCoherent :
      (s : System) (bitmap : Array ℕ)
      → s.phase ≡ answered bitmap
      → IsCoherent hash_funcs s
      → IsCoherent hash_funcs (rdma_write s bitmap)
  unfolding rdma_write is_updating check_merging
  write-IsCoherent s bitmap e c = record {
    paired = record {
      num_hash = c.paired.num_hash;
      num_bits = c.paired.num_bits;
      some_bit = c.paired.some_bit;
      num_longs = c.paired.num_longs;
    };
    holds = c.holds;
    merging = c.merging ∙ rw e refl;
    known = λ k h. known k (c.snapped k bitmap e h);
    sent = λ k p m. absurd (cc);
    snapped = λ k b p h. absurd (cc);
  }
    where
      known :
          (k : ℕ)
          → Mem k s.since
            ⊎ (InTmp hash_funcs s.client k
                ⊎ AreSet hash_funcs s.client.num_bits bitmap k s.client.num_hash 0)
          → Mem k s.since ⊎ Found hash_funcs (record s.client { bitmap = bitmap }) k
      known k (inl m) = inl m
      known k (inr (inl h)) = inr (inl (c.merging ∙ rw e refl, h))
      known k (inr (inr h)) = inr (inr h)

  pub end-IsCoherent :
      (s : System)
      → s.phase ≡ written
      → IsCoherent hash_funcs s
      → IsCoherent hash_funcs (process_imm s filter_update_end)
  unfolding process_imm update_filter bf_unblocking bf_merge is_updating check_merging
  end-IsCoherent s e c = record {
    paired = record {
      num_hash = c.paired.num_hash;
      num_bits = c.paired.num_bits;
      some_bit = c.paired.some_bit;
      num_longs = c.paired.num_longs;
    };
    holds = c.holds;
    merging = refl;
    known = λ k h. known k (c.known k h);
    sent = λ k p m. absurd (cc);
    snapped = λ k b p h. absurd (cc);
  }
    where
      known :
          (k : ℕ)
          → Mem k s.missed ⊎ Found hash_funcs s.client k
          → Mem k s.missed ⊎ Found hash_funcs (bf_unblocking s.client) k
      known k (inl m) = inl m
      known k (inr h) = inr (inr (bf_unblocking-InBitmap hash_funcs s.client k c.paired.some_bit h))
