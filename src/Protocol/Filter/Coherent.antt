-- ===== src/Protocol/Filter/Coherent.antt =====
-- The invariant of the two filters.
use mathlib.Core.List.{Memᴰ as Mem}
use cleancache_rdma.Prelude.{
  ℕ, ◌<◌, ◌≡◌, ◌⊎◌, Bool, true, false, Array, List, [], ◌∷◌, ◌++◌, refl, sym, ap,
}
use cleancache_rdma.Driver.BloomFilter.{BloomFilter, check_merging}
use cleancache_rdma.Daemon.CountingBloomFilter.{CountingBloomFilter, bits_to_longs}
use cleancache_rdma.Daemon.CountingBloomFilter.Counts.{Holds}
use cleancache_rdma.Protocol.Filter.{System, Phase, idle, asked, answered, written}
use cleancache_rdma.Protocol.Filter.Bits.{AreSet, InTmp, Found}

-- A key is at the server, or on its way.
abbrev pub Held : System → ℕ → Type 0
Held s key = Mem key s.stored ⊎ Mem key s.flight

unfoldable pub is_updating : Phase → Bool
is_updating idle = false
is_updating asked = true
is_updating (answered bitmap) = true
is_updating written = true

-- the filters have the same size
pub record IsPaired (f : BloomFilter) (g : CountingBloomFilter) : Type 0 where
  pub num_hash : g.num_hash ≡ f.num_hash
  pub num_bits : g.num_bits ≡ f.num_bits
  pub some_bit : 0 < f.num_bits
  pub num_longs : g.num_longs ≡ bits_to_longs g.num_bits

pub record IsCoherent (hash_funcs : ℕ → ℕ → ℕ) (s : System) : Type 0 where
  pub paired : IsPaired s.client s.server
  pub holds : Holds hash_funcs s.server s.stored
  pub merging : check_merging s.client ≡ is_updating s.phase
  pub known : (key : ℕ) → Held s key → Mem key s.missed ⊎ Found hash_funcs s.client key
  pub sent :
      (key : ℕ)
      → s.phase ≡ asked
      → Mem key s.flight
      → Mem key s.since ⊎ InTmp hash_funcs s.client key
  pub snapped :
      (key : ℕ) (bitmap : Array ℕ)
      → s.phase ≡ answered bitmap
      → Held s key
      → Mem key s.since
        ⊎ (InTmp hash_funcs s.client key
            ⊎ AreSet hash_funcs s.client.num_bits bitmap key s.client.num_hash 0)

-- membership around the place where a key is taken out
pub Mem-without :
    {k : ℕ} (x : ℕ) (front back : List ℕ) → Mem k (front ++ back) → Mem k (front ++ x ∷ back)
Mem-without x [] back m = Mem.tail m
Mem-without x (y ∷ front) back (Mem.head e) = Mem.head e
Mem-without x (y ∷ front) back (Mem.tail m) = Mem.tail (Mem-without x front back m)

pub Mem-middle : {x : ℕ} (front back : List ℕ) → Mem x (front ++ x ∷ back)
Mem-middle [] back = Mem.head refl
Mem-middle (y ∷ front) back = Mem.tail (Mem-middle front back)

pub split_of_mem :
    {k : ℕ} {l : List ℕ} → Mem k l → (front : List ℕ) × (back : List ℕ) × (l ≡ front ++ k ∷ back)
split_of_mem {l = []} m = elim m [ ]
split_of_mem {l = y ∷ l} (Mem.head e) = ([], l, ap (λ x. x ∷ l) (sym e))
split_of_mem {l = y ∷ l} (Mem.tail m) =
    let (front, back, e) = split_of_mem m in (y ∷ front, back, ap (λ r. y ∷ r) e)
