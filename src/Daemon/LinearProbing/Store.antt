-- ===== src/Daemon/LinearProbing/Store.antt =====
-- `Get`, `GetWithFlag` and `Delete` against the map.
use cleancache_rdma.Prelude.{
  ℕ, ◌<◌, ◌≡◌, refl, sym, subst, ◌∙◌, Bool, Option, none, some, ◌==◌, if◌then◌else◌, Bool-cases,
  Option-cases, ==_iff, inl, inr, arith,
}
use cleancache_rdma.Daemon.Pair.{tombstone, no_value}
use cleancache_rdma.Daemon.LinearProbing.{
  Bucket, LinearProbing, set_tombstone, touch, flag, delete, get, get_with_flag,
}
use cleancache_rdma.Daemon.LinearProbing.Probe.{probe, delete-probe, get-probe, get_with_flag-probe}
use cleancache_rdma.Daemon.LinearProbing.Placed.{IsKey, IsPlaced, put, put-IsPlaced, probe_sound}
use cleancache_rdma.Daemon.LinearProbing.View.{view, view-finds, view-put}

-- the value that the calls return for a key: NONE if there is none
abbrev pub value_of : Option ℕ → ℕ
value_of none = no_value
value_of (some v) = v

module _ (hash_funcs : ℕ → ℕ → ℕ) where
  -- the same entries, in a well-placed table
  pub record Same (t t' : LinearProbing) : Type 0 where
    pub placed : IsPlaced hash_funcs t'
    pub same_capacity : t'.capacity ≡ t.capacity
    pub reads : (k : ℕ) → IsKey k → view hash_funcs t' k ≡ view hash_funcs t k

  Same-put :
      (t : LinearProbing) (s : ℕ) (b : Bucket)
      → IsPlaced hash_funcs t
      → s < t.capacity
      → IsKey (t.buckets s).key
      → b.key ≡ (t.buckets s).key
      → b.value ≡ (t.buckets s).value
      → Same t (put t s b)
  Same-put t s b p below k key value =
      let p' =
        put-IsPlaced hash_funcs t s b p (λ e. k.0 (sym key ∙ e)) (λ _. rw key (p.reach s below k))
          (λ s' below' ne _ e. ne (sym (p.unique s s' below below' k (sym (e ∙ key))))) in
      record {
        placed = p';
        same_capacity = refl;
        reads = λ j k'.
            view-put hash_funcs t s b j p p' k' below
            ∙ ground (arith, key, value, view-finds hash_funcs t j s p k' below);
      }

  -- `Get` returns the value of the key, or NONE, and changes no entry.
  pub get_lem :
      (t : LinearProbing) (key now : ℕ)
      → IsPlaced hash_funcs t
      → IsKey key
      → ((get hash_funcs t key now).0 ≡ value_of (view hash_funcs t key))
        × Same t (get hash_funcs t key now).1
  unfolding view touch
  get_lem t key now p k =
      rw (get-probe hash_funcs t key now) (elim (Option-cases (probe hash_funcs t key)) [
        | inl e ↦ rw e (refl, record { placed = p; same_capacity = refl; reads = λ j k'. refl })
        | inr (s, e) ↦
            let (below, at) = probe_sound hash_funcs t key s p.pos e in
            rw e (refl, Same-put t s _ p below (rw at k) refl refl)
      ])

  -- `GetWithFlag` returns the value of the key when it sets the busy flag, NONE otherwise, and
  -- changes no entry.
  pub get_with_flag_lem :
      (t : LinearProbing) (key : ℕ) (busy : Bool) (now : ℕ)
      → IsPlaced hash_funcs t
      → IsKey key
      → ((get_with_flag hash_funcs t key busy now).0
          ≡ (if busy then value_of (view hash_funcs t key) else no_value))
        × Same t (get_with_flag hash_funcs t key busy now).1
  unfolding view flag
  get_with_flag_lem t key busy now p k =
      rw (get_with_flag-probe hash_funcs t key busy now)
        (elim (Option-cases (probe hash_funcs t key)) [
          | inl e ↦
              rw e (ground arith, record { placed = p; same_capacity = refl; reads = λ j k'. refl })
          | inr (s, e) ↦
              let (below, at) = probe_sound hash_funcs t key s p.pos e in
              rw e (ground arith, Same-put t s _ p below (rw at k) (ground arith) (ground arith))
        ])

  -- what is left without `key`
  pub record Without (t : LinearProbing) (key : ℕ) (t' : LinearProbing) : Type 0 where
    pub placed : IsPlaced hash_funcs t'
    pub same_capacity : t'.capacity ≡ t.capacity
    pub reads :
        (k : ℕ) → IsKey k → view hash_funcs t' k ≡ (if key == k then none else view hash_funcs t k)

  pub set_tombstone-Without :
      (t : LinearProbing) (s : ℕ)
      → IsPlaced hash_funcs t
      → s < t.capacity
      → Without t (t.buckets s).key (set_tombstone t s)
  unfolding set_tombstone
  set_tombstone-Without t s p below =
      let p' =
        put-IsPlaced hash_funcs t s (record (t.buckets s) { key = tombstone }) p (omega arith)
          (λ k. absurd (k.1 refl)) (λ s' _ _ k. absurd (k.1 refl)) in
      record {
        placed = p';
        same_capacity = refl;
        reads = λ j k'. view-put hash_funcs t s _ j p p' k' below ∙ ground (arith, k'.1);
      }

  Without-self :
      (t : LinearProbing) (key : ℕ)
      → IsPlaced hash_funcs t
      → view hash_funcs t key ≡ none
      → Without t key t
  Without-self t key p gone = record {
    placed = p;
    same_capacity = refl;
    reads = λ j k'. elim (Bool-cases (key == j)) [
      | inl e ↦ rw e (subst (λ x. view hash_funcs t x ≡ none) ((==_iff key j).0 e) gone)
      | inr e ↦ rw e
    ];
  }

  view-none :
      (t : LinearProbing) (key : ℕ) → probe hash_funcs t key ≡ none → view hash_funcs t key ≡ none
  unfolding view
  view-none t key e = rw e

  -- `Delete` returns the value of the key, or NONE, and removes the key and no other.
  pub delete_lem :
      (t : LinearProbing) (key : ℕ)
      → IsPlaced hash_funcs t
      → IsKey key
      → ((delete hash_funcs t key).0 ≡ value_of (view hash_funcs t key))
        × Without t key (delete hash_funcs t key).1
  delete_lem t key p k =
      rw (delete-probe hash_funcs t key) (elim (Option-cases (probe hash_funcs t key)) [
        | inl e ↦ rw (e, view-none t key e) (refl, Without-self t key p (view-none t key e))
        | inr (s, e) ↦
            let (below, at) = probe_sound hash_funcs t key s p.pos e in
            rw (e, view-finds hash_funcs t key s p k below at)
              (
                refl,
                subst (λ x. Without t x (set_tombstone t s)) at (set_tombstone-Without t s p below),
              )
      ])
