-- ===== src/Protocol/Filter/Keys.antt =====
-- The steps of single keys keep the invariant of the two filters.
use mathlib.Core.List.{Memᴰ as Mem}
use cleancache_rdma.Prelude.{
  ℕ, ◌≤◌, ◌≡◌, ◌⊎◌, ◌∙◌, true, Array, List, ◌∷◌, ◌++◌, inl, inr, refl, sym, subst, Bool-cases,
}
use cleancache_rdma.Driver.BloomFilter.{BloomFilter, bf_add}
use cleancache_rdma.Daemon.CountingBloomFilter.{
  CountingBloomFilter, insert, remove, might_contain_idx, no_index,
}
use cleancache_rdma.Daemon.CountingBloomFilter.Counts.{Holds, insert-Holds, remove-Holds, total}
use cleancache_rdma.Protocol.Filter.{System, asked, answered, put, arrive, drop, leave}
use cleancache_rdma.Protocol.Filter.Bits.{
  AreSet, InTmp, Found, Grows, Grows-InTmp, Grows-Found, bf_add-Grows, bf_add-InTmp, bf_add-Found,
}
use cleancache_rdma.Protocol.Filter.Coherent.{
  Held, is_updating, IsPaired, IsCoherent, Mem-without, Mem-middle,
}

module _ (hash_funcs : ℕ → ℕ → ℕ) where
  remove-IsPaired :
      {f : BloomFilter} {g : CountingBloomFilter} (key : ℕ)
      → IsPaired f g
      → IsPaired f (remove hash_funcs g key).1
  unfolding remove
  remove-IsPaired {f} {g} key p =
      elim (Bool-cases (might_contain_idx hash_funcs g key (λ i. no_index)).0) [
        | inl e ↦ rw e (record {
          num_hash = p.num_hash;
          num_bits = p.num_bits;
          some_bit = p.some_bit;
          num_longs = p.num_longs;
        })
        | inr e ↦ rw e p
      ]

  pub put-IsCoherent :
      (s : System) (key : ℕ)
      → IsCoherent hash_funcs s
      → IsCoherent hash_funcs (put hash_funcs s key)
  unfolding put is_updating
  put-IsCoherent s key c = record {
    paired = record {
      num_hash = c.paired.num_hash ∙ sym grows.num_hash;
      num_bits = c.paired.num_bits ∙ sym grows.num_bits;
      some_bit = rw grows.num_bits c.paired.some_bit;
      num_longs = c.paired.num_longs;
    };
    holds = c.holds;
    merging = grows.merging ∙ c.merging;
    known = known;
    sent = sent;
    snapped = snapped;
  }
    where
      grows : Grows hash_funcs s.client (bf_add hash_funcs s.client key)
      grows = bf_add-Grows hash_funcs s.client key

      again :
          (k : ℕ)
          → Mem k s.missed ⊎ Found hash_funcs s.client k
          → Mem k s.missed ⊎ Found hash_funcs (bf_add hash_funcs s.client key) k
      again k (inl m) = inl m
      again k (inr h) = inr (Grows-Found hash_funcs s.client _ k c.paired.some_bit grows h)

      here : (k : ℕ) → k ≡ key → Found hash_funcs (bf_add hash_funcs s.client key) k
      here k e = rw e (bf_add-Found hash_funcs s.client key c.paired.some_bit)

      known :
          (k : ℕ)
          → Mem k s.stored ⊎ Mem k (key ∷ s.flight)
          → Mem k s.missed ⊎ Found hash_funcs (bf_add hash_funcs s.client key) k
      known k (inl m) = again k (c.known k (inl m))
      known k (inr (Mem.head e)) = inr (here k e)
      known k (inr (Mem.tail m)) = again k (c.known k (inr m))

      tmp :
          (k : ℕ)
          → is_updating s.phase ≡ true
          → k ≡ key
          → InTmp hash_funcs (bf_add hash_funcs s.client key) k
      tmp k busy e =
          rw e (bf_add-InTmp hash_funcs s.client key c.paired.some_bit (c.merging ∙ busy))

      still :
          (k : ℕ)
          → InTmp hash_funcs s.client k
          → InTmp hash_funcs (bf_add hash_funcs s.client key) k
      still k h = Grows-InTmp hash_funcs s.client _ k c.paired.some_bit grows h

      kept :
          (k : ℕ)
          → Mem k s.since ⊎ InTmp hash_funcs s.client k
          → Mem k s.since ⊎ InTmp hash_funcs (bf_add hash_funcs s.client key) k
      kept k (inl m) = inl m
      kept k (inr h) = inr (still k h)

      sent :
          (k : ℕ)
          → s.phase ≡ asked
          → Mem k (key ∷ s.flight)
          → Mem k s.since ⊎ InTmp hash_funcs (bf_add hash_funcs s.client key) k
      sent k e (Mem.head same) = inr (tmp k (rw e refl) same)
      sent k e (Mem.tail m) = kept k (c.sent k e m)

      wider :
          (k : ℕ) (bitmap : Array ℕ)
          → Mem k s.since
            ⊎ (InTmp hash_funcs s.client k
                ⊎ AreSet hash_funcs s.client.num_bits bitmap k s.client.num_hash 0)
          → Mem k s.since
            ⊎ (InTmp hash_funcs (bf_add hash_funcs s.client key) k
                ⊎ AreSet hash_funcs
                    (bf_add hash_funcs s.client key).num_bits
                    bitmap
                    k
                    (bf_add hash_funcs s.client key).num_hash
                    0)
      wider k bitmap (inl m) = inl m
      wider k bitmap (inr (inl h)) = inr (inl (still k h))
      wider k bitmap (inr (inr h)) = inr (inr (rw (grows.num_bits, grows.num_hash) h))

      snapped :
          (k : ℕ) (bitmap : Array ℕ)
          → s.phase ≡ answered bitmap
          → Mem k s.stored ⊎ Mem k (key ∷ s.flight)
          → Mem k s.since
            ⊎ (InTmp hash_funcs (bf_add hash_funcs s.client key) k
                ⊎ AreSet hash_funcs
                    (bf_add hash_funcs s.client key).num_bits
                    bitmap
                    k
                    (bf_add hash_funcs s.client key).num_hash
                    0)
      snapped k bitmap e (inl m) = wider k bitmap (c.snapped k bitmap e (inl m))
      snapped k bitmap e (inr (Mem.head same)) = inr (inl (tmp k (rw e refl) same))
      snapped k bitmap e (inr (Mem.tail m)) = wider k bitmap (c.snapped k bitmap e (inr m))

  pub arrive-IsCoherent :
      (s : System) (front : List ℕ) (key : ℕ) (back : List ℕ)
      → s.flight ≡ front ++ key ∷ back
      → ((j : ℕ) → total hash_funcs s.server.num_hash s.server.num_bits (key ∷ s.stored) j ≤ 255)
      → IsCoherent hash_funcs s
      → IsCoherent hash_funcs (arrive hash_funcs s key (front ++ back))
  unfolding arrive insert
  arrive-IsCoherent s front key back e fits c = record {
    paired = record {
      num_hash = c.paired.num_hash;
      num_bits = c.paired.num_bits;
      some_bit = c.paired.some_bit;
      num_longs = c.paired.num_longs;
    };
    holds = insert-Holds hash_funcs s.stored key c.holds fits;
    merging = c.merging;
    known = λ k h. c.known k (before k h);
    sent = λ k p m. c.sent k p (flying k m);
    snapped = λ k bitmap p h. c.snapped k bitmap p (before k h);
  }
    where
      flying : (k : ℕ) → Mem k (front ++ back) → Mem k s.flight
      flying k m = subst (λ l. Mem k l) (sym e) (Mem-without key front back m)

      before : (k : ℕ) → Mem k (key ∷ s.stored) ⊎ Mem k (front ++ back) → Held s k
      before k (inl (Mem.head same)) = inr (
          subst (λ l. Mem k l) (sym e)
            (subst (λ x. Mem x (front ++ key ∷ back)) (sym same) (Mem-middle front back)))
      before k (inl (Mem.tail m)) = inl m
      before k (inr m) = inr (flying k m)

  pub drop-IsCoherent :
      (s : System) (front : List ℕ) (key : ℕ) (back : List ℕ)
      → s.flight ≡ front ++ key ∷ back
      → IsCoherent hash_funcs s
      → IsCoherent hash_funcs (drop hash_funcs s (front ++ back))
  unfolding drop
  drop-IsCoherent s front key back e c = record {
    paired = c.paired;
    holds = c.holds;
    merging = c.merging;
    known = λ k h. c.known k (before k h);
    sent = λ k p m. c.sent k p (flying k m);
    snapped = λ k bitmap p h. c.snapped k bitmap p (before k h);
  }
    where
      flying : (k : ℕ) → Mem k (front ++ back) → Mem k s.flight
      flying k m = subst (λ l. Mem k l) (sym e) (Mem-without key front back m)

      before : (k : ℕ) → Mem k s.stored ⊎ Mem k (front ++ back) → Held s k
      before k (inl m) = inl m
      before k (inr m) = inr (flying k m)

  pub leave-IsCoherent :
      (s : System) (front : List ℕ) (key : ℕ) (back : List ℕ)
      → s.stored ≡ front ++ key ∷ back
      → IsCoherent hash_funcs s
      → IsCoherent hash_funcs (leave hash_funcs s key (front ++ back))
  unfolding leave
  leave-IsCoherent s front key back e c = record {
    paired = remove-IsPaired key c.paired;
    holds =
        (remove-Holds hash_funcs front key back (subst (Holds hash_funcs s.server) e c.holds)).1;
    merging = c.merging;
    known = λ k h. c.known k (before k h);
    sent = c.sent;
    snapped = λ k bitmap p h. c.snapped k bitmap p (before k h);
  }
    where
      before : (k : ℕ) → Mem k (front ++ back) ⊎ Mem k s.flight → Held s k
      before k (inl m) = inl (subst (λ l. Mem k l) (sym e) (Mem-without key front back m))
      before k (inr m) = inr m
