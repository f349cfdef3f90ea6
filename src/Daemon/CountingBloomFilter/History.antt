-- ===== src/Daemon/CountingBloomFilter/History.antt =====
-- What a sequence of `Insert` and `Remove` makes of a fresh filter.
use cleancache_rdma.Prelude.{ℕ, ◌≤◌, ◌≡◌, refl, subst, true, List, [], ◌∷◌, ◌++◌, arith}
use cleancache_rdma.Daemon.CountingBloomFilter.{
  CountingBloomFilter, new, insert, might_contain, remove,
}
use cleancache_rdma.Daemon.CountingBloomFilter.Counts.{
  total, Holds, Holds-contain, insert-Holds, remove-Holds,
}

module _ (hash_funcs : ℕ → ℕ → ℕ) where
  -- `History f keys`: `f` came about by insertions and by removals of inserted keys, with no
  -- index hashed to more than 255 times at once; `keys` are those inserted and not removed.
  pub data History : CountingBloomFilter → List ℕ → Type 0 where
    fresh : (num_hash num_bits : ℕ) → History (new num_hash num_bits) []
    added :
        {f : CountingBloomFilter} {keys : List ℕ} (o : ℕ)
        → History f keys
        → ((j : ℕ) → total hash_funcs f.num_hash f.num_bits (o ∷ keys) j ≤ 255)
        → History (insert hash_funcs f o) (o ∷ keys)
    removed :
        {f : CountingBloomFilter} {keys : List ℕ} (front : List ℕ) (o : ℕ) (back : List ℕ)
        → History f keys
        → keys ≡ front ++ o ∷ back
        → History (remove hash_funcs f o).1 (front ++ back)

  History-Holds :
      {f : CountingBloomFilter} {keys : List ℕ} → History f keys → Holds hash_funcs f keys
  unfolding new
  History-Holds (fresh h m) = record { counted = λ j. refl; small = λ j. omega arith }
  History-Holds (added {keys = keys} o run fits) =
      insert-Holds hash_funcs keys o (History-Holds run) fits
  History-Holds (removed {f = f} front o back run e) =
      (remove-Holds hash_funcs front o back (subst (Holds hash_funcs f) e (History-Holds run))).1

  -- A key that was inserted and not removed is reported as contained, whatever else was inserted
  -- and removed, as long as no index is hashed to by the keys held more than 255 times.
  pub History-contain :
      {f : CountingBloomFilter} {keys : List ℕ} (front : List ℕ) (o : ℕ) (back : List ℕ)
      → History f keys
      → keys ≡ front ++ o ∷ back
      → might_contain hash_funcs f o ≡ true
  History-contain {f} front o back run e =
      Holds-contain hash_funcs front o back (subst (Holds hash_funcs f) e (History-Holds run))
