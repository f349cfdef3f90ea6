-- ===== src/Protocol/Filter/Contained.antt =====
-- Which lookups of the client are right, over all runs.
use mathlib.Core.List.{Memᴰ as Mem}
use cleancache_rdma.Prelude.{
  ℕ, ◌<◌, ◌≡◌, ◌⊎◌, Bool, true, false, [], Option, some, none, inl, inr, refl, sym, subst, ap,
  arith,
}
use cleancache_rdma.Driver.BloomFilter.{BloomFilter, bf_init, bf_might_contain, check_merging}
use cleancache_rdma.Daemon.CountingBloomFilter.{new}
use cleancache_rdma.Protocol.Filter.{System, Reach, start, later, fresh}
use cleancache_rdma.Protocol.Filter.Bits.{Found, Found-bf_might_contain}
use cleancache_rdma.Protocol.Filter.Coherent.{Held, IsCoherent, is_updating}
use cleancache_rdma.Protocol.Filter.Steps.{Step-IsCoherent}

abbrev made_or : Option BloomFilter → BloomFilter → BloomFilter
made_or none f = f
made_or (some g) f = g

-- what `bf_init` makes
pub record IsMade (f : BloomFilter) (h m : ℕ) : Type 0 where
  pub num_hash : f.num_hash ≡ h
  pub num_bits : f.num_bits ≡ m
  pub merging : f.merging ≡ 0
  pub empty : (k : ℕ) → f.tmp_bitmap k ≡ 0

pub bf_init_lem :
    {f : BloomFilter} (kzalloc_ok vzalloc_ok : Bool) (num_hash num_bits : ℕ) (has_ptr : Bool)
    → bf_init kzalloc_ok vzalloc_ok num_hash num_bits has_ptr ≡ some f
    → IsMade f num_hash num_bits
unfolding bf_init
bf_init_lem {f} true true num_hash num_bits has_ptr e =
    subst (λ g. IsMade g num_hash num_bits) (ap (λ (o : Option BloomFilter). made_or o f) e)
      (record { num_hash = refl; num_bits = refl; merging = refl; empty = λ k. refl })
bf_init_lem true false num_hash num_bits has_ptr e = absurd (cc)
bf_init_lem false vz num_hash num_bits has_ptr e = absurd (cc)

module _ (hash_funcs : ℕ → ℕ → ℕ) where
  fresh-IsCoherent :
      {f : BloomFilter} (kzalloc_ok vzalloc_ok : Bool) (num_hash num_bits : ℕ)
      → 0 < num_bits
      → bf_init kzalloc_ok vzalloc_ok num_hash num_bits true ≡ some f
      → IsCoherent hash_funcs (fresh f num_hash num_bits)
  unfolding new is_updating check_merging
  fresh-IsCoherent {f} kz vz num_hash num_bits pos e =
      let made = bf_init_lem kz vz num_hash num_bits true e in
      record {
        paired = record {
          num_hash = sym made.num_hash;
          num_bits = sym made.num_bits;
          some_bit = rw made.num_bits pos;
          num_longs = omega arith;
        };
        holds = record { counted = λ j. refl; small = λ j. omega arith };
        merging = rw made.merging refl;
        known = λ k h. nothing k h;
        sent = λ k p m. absurd (cc);
        snapped = λ k b p h. absurd (cc);
      }
    where
      nothing : (k : ℕ) → Mem k [] ⊎ Mem k [] → Mem k [] ⊎ Found hash_funcs f k
      nothing k (inl m) = elim m [ ]
      nothing k (inr m) = elim m [ ]

  Reach-IsCoherent :
      {s t : System} → IsCoherent hash_funcs s → Reach hash_funcs s t → IsCoherent hash_funcs t
  Reach-IsCoherent c start = c
  Reach-IsCoherent c (later r st) = Step-IsCoherent hash_funcs st (Reach-IsCoherent c r)

  -- In every run from fresh filters of the same size and at least one bit, with puts, arrivals,
  -- dropped puts, removals and filter updates in any order, and no index hashed to more than 255 times
  -- at once by the keys that the server's filter counts: the client finds each key that is counted
  -- there or in flight, or else the key was in flight when the update began that wrote the client's
  -- bitmap last.
  pub Reach-contain :
      {f : BloomFilter} {s : System} (kzalloc_ok vzalloc_ok : Bool) (num_hash num_bits key : ℕ)
      → 0 < num_bits
      → bf_init kzalloc_ok vzalloc_ok num_hash num_bits true ≡ some f
      → Reach hash_funcs (fresh f num_hash num_bits) s
      → Held s key
      → Mem key s.missed ⊎ (bf_might_contain hash_funcs s.client key ≡ true)
  Reach-contain {s} kz vz num_hash num_bits key pos e r held =
      elim ((Reach-IsCoherent (fresh-IsCoherent kz vz num_hash num_bits pos e) r).known key held) [
        | inl m ↦ inl m
        | inr h ↦ inr (Found-bf_might_contain hash_funcs s.client key h)
      ]
