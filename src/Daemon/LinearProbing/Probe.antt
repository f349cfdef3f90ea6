-- ===== src/Daemon/LinearProbing/Probe.antt =====
-- The search that `Get`, `GetWithFlag` and `Delete` share, as one function that finds a slot.
use cleancache_rdma.Prelude.{
  ℕ, zero, suc, ◌+◌, ◌%◌, ◌≡◌, refl, Bool, Option, none, some, leb, ◌==◌, if◌then◌else◌, arith,
}
use cleancache_rdma.Daemon.Pair.{invalid, no_value}
use cleancache_rdma.Daemon.LinearProbing.{
  LinearProbing, max_probing_len, set_tombstone, touch, flag, get_hashed_key, delete_from, delete,
  get_from, get, get_with_flag_from, get_with_flag,
}

-- the slot of the key, if the search meets it before an INVALID bucket and within its length
unfoldable pub probe_from : LinearProbing → ℕ → ℕ → ℕ → ℕ → Option ℕ
probe_from t key loc zero i = none
probe_from t key loc (suc n) i =
    let slot = (loc + i) % t.capacity in
    let rest = probe_from t key loc n (i + 1) in
    if (t.buckets slot).key == key
    then some slot
    else if (t.buckets slot).key == invalid
    then none
    else if leb max_probing_len i
    then none
    else rest

abbrev pub found {ℓ} : {A : Type ℓ} → A → (ℕ → A) → Option ℕ → A
found d f none = d
found d f (some slot) = f slot

module _ (hash_funcs : ℕ → ℕ → ℕ) where
  unfoldable pub probe : LinearProbing → ℕ → Option ℕ
  probe t key = probe_from t key (get_hashed_key hash_funcs t key) t.capacity 0

  delete_from-probe :
      (t : LinearProbing) (key loc n i : ℕ)
      → delete_from hash_funcs t key loc n i
        ≡ found
            (no_value, t)
            (λ s. ((t.buckets s).value, set_tombstone t s))
            (probe_from t key loc n i)
  unfolding delete_from probe_from
  delete_from-probe t key loc zero i = refl
  delete_from-probe t key loc (suc n) i = ground (arith, delete_from-probe t key loc n (i + 1))

  get_from-probe :
      (t : LinearProbing) (key now loc n i : ℕ)
      → get_from hash_funcs t key now loc n i
        ≡ found (no_value, t) (λ s. ((t.buckets s).value, touch t s now)) (probe_from t key loc n i)
  unfolding get_from probe_from
  get_from-probe t key now loc zero i = refl
  get_from-probe t key now loc (suc n) i = ground (arith, get_from-probe t key now loc n (i + 1))

  get_with_flag_from-probe :
      (t : LinearProbing) (key : ℕ) (busy : Bool) (now loc n i : ℕ)
      → get_with_flag_from hash_funcs t key busy now loc n i
        ≡ found
            (no_value, t)
            (λ s. (if busy then (t.buckets s).value else no_value, flag t s busy now))
            (probe_from t key loc n i)
  unfolding get_with_flag_from probe_from
  get_with_flag_from-probe t key busy now loc zero i = refl
  get_with_flag_from-probe t key busy now loc (suc n) i =
      ground (arith, get_with_flag_from-probe t key busy now loc n (i + 1))

  pub delete-probe :
      (t : LinearProbing) (key : ℕ)
      → delete hash_funcs t key
        ≡ found (no_value, t) (λ s. ((t.buckets s).value, set_tombstone t s)) (probe t key)
  unfolding delete probe
  delete-probe t key = delete_from-probe t key (get_hashed_key hash_funcs t key) t.capacity 0

  pub get-probe :
      (t : LinearProbing) (key now : ℕ)
      → get hash_funcs t key now
        ≡ found (no_value, t) (λ s. ((t.buckets s).value, touch t s now)) (probe t key)
  unfolding get probe
  get-probe t key now = get_from-probe t key now (get_hashed_key hash_funcs t key) t.capacity 0

  pub get_with_flag-probe :
      (t : LinearProbing) (key : ℕ) (busy : Bool) (now : ℕ)
      → get_with_flag hash_funcs t key busy now
        ≡ found
            (no_value, t)
            (λ s. (if busy then (t.buckets s).value else no_value, flag t s busy now))
            (probe t key)
  unfolding get_with_flag probe
  get_with_flag-probe t key busy now =
      get_with_flag_from-probe t key busy now (get_hashed_key hash_funcs t key) t.capacity 0
