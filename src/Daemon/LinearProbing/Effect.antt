-- ===== src/Daemon/LinearProbing/Effect.antt =====
-- What `Insert` does to the map.
use cleancache_rdma.Prelude.{
  ℕ, ◌<◌, ◌≡◌, ◌≢◌, refl, sym, ap, ◌∙◌, Bool, false, Option, none, some, ◌==◌, if◌then◌else◌,
  Bool-cases, inl, inr, arith,
}
use cleancache_rdma.Prelude.Int.{pos, negsuc}
use cleancache_rdma.Daemon.Pair.{no_value, Run, ok}
use cleancache_rdma.Daemon.LinearProbing.{
  LinearProbing, max_probing_len, set_bucket, Inserted, no_victims, insert, delete, get_hashed_key,
}
use cleancache_rdma.Daemon.LinearProbing.Placed.{IsKey, IsPlaced, Reaches, put-IsPlaced}
use cleancache_rdma.Daemon.LinearProbing.View.{view, Absent, view-finds, view-put}
use cleancache_rdma.Daemon.LinearProbing.Store.{value_of, Without, delete_lem}
use cleancache_rdma.Daemon.LinearProbing.Insert.{
  Outcome, placed, evicted, refused, skipped, insert_from-Outcome,
}

some-value_of : (o : Option ℕ) (v : ℕ) → value_of o ≡ v → (v == no_value) ≡ false → o ≡ some v
some-value_of none v e h = ground arith
some-value_of (some w) v e h = ap some e

module _ (hash_funcs : ℕ → ℕ → ℕ) where
  -- The ways that `Insert` of `value` under `key` can end.
  pub data Effect (t : LinearProbing) (key value ev_key : ℕ) : Run Inserted → Type 0 where
    -- the key was there: it is removed and its value handed back
    removed :
        {t' : LinearProbing} (old : ℕ)
        → view hash_funcs t key ≡ some old
        → Without hash_funcs t key t'
        → Effect t key value ev_key
            (ok (record { ret = pos 0; ev_key = ev_key; ev_value = old; table = t' }))
    -- the pair is stored in a vacant bucket
    stored :
        {t' : LinearProbing}
        → IsPlaced hash_funcs t'
        → t'.capacity ≡ t.capacity
        → ((k : ℕ)
            → IsKey k
            → view hash_funcs t' k ≡ (if key == k then some value else view hash_funcs t k))
        → Effect t key value ev_key
            (ok (record { ret = pos 0; ev_key = ev_key; ev_value = no_value; table = t' }))
    -- the pair takes the place of another one, which is handed back
    replaced :
        {t' : LinearProbing} (victim old : ℕ)
        → IsKey victim
        → victim ≢ key
        → view hash_funcs t victim ≡ some old
        → IsPlaced hash_funcs t'
        → t'.capacity ≡ t.capacity
        → ((k : ℕ)
            → IsKey k
            → view hash_funcs t' k ≡ (
                if key == k then some value else if victim == k then none else view hash_funcs t k))
        → Effect t key value ev_key
            (ok (record { ret = pos 0; ev_key = victim; ev_value = old; table = t' }))
    -- nothing is stored: the pair itself is handed back with code -1
    kept_out :
        {t' : LinearProbing}
        → Without hash_funcs t key t'
        → Effect t key value ev_key
            (ok (record { ret = negsuc 0; ev_key = key; ev_value = value; table = t' }))

  Absent-view :
      (t : LinearProbing) (key : ℕ)
      → IsPlaced hash_funcs t
      → IsKey key
      → view hash_funcs t key ≡ none
      → Absent hash_funcs t key
  Absent-view t key p k e s below at = let hit = view-finds hash_funcs t key s p k below at in cc

  set_bucket-IsPlaced :
      (t : LinearProbing) (s key value now : ℕ)
      → IsPlaced hash_funcs t
      → IsKey key
      → Absent hash_funcs t key
      → Reaches t (get_hashed_key hash_funcs t key) s
      → IsPlaced hash_funcs (set_bucket t s key value now)
  unfolding set_bucket
  set_bucket-IsPlaced t s key value now p k absent r =
      put-IsPlaced hash_funcs t s _ p k.0 (λ _. r) (λ s' below _ _. absent s' below)

  set_bucket-view :
      (t : LinearProbing) (s key value now j : ℕ)
      → IsPlaced hash_funcs t
      → IsPlaced hash_funcs (set_bucket t s key value now)
      → IsKey j
      → s < t.capacity
      → view hash_funcs (set_bucket t s key value now) j ≡ (
          if key == j
          then some value
          else if (t.buckets s).key == j
          then none
          else view hash_funcs t j)
  unfolding set_bucket
  set_bucket-view t s key value now j p p' k below = view-put hash_funcs t s _ j p p' k below

  set_bucket_capacity :
      (t : LinearProbing) (s key value now : ℕ)
      → (set_bucket t s key value now).capacity ≡ t.capacity
  unfolding set_bucket
  set_bucket_capacity t s key value now = refl

  Reaches-lt : {t : LinearProbing} {loc s : ℕ} → Reaches t loc s → s < t.capacity
  Reaches-lt {t} r = grind (arith, r.inside, r.arrives)

  -- The ways that the loop ends are ways that `Insert` ends, when the table without the key is
  -- what the loop starts from.
  Outcome-Effect :
      (t t₀ : LinearProbing) (key value now ev_key : ℕ) {r : Run Inserted}
      → IsKey key
      → max_probing_len < t₀.capacity
      → Without hash_funcs t key t₀
      → Outcome t₀ (get_hashed_key hash_funcs t₀ key) key value now ev_key r
      → Effect t key value ev_key r
  Outcome-Effect t t₀ key value now ev_key k large w (placed s reach free) =
      let gone = Absent-view t₀ key w.placed k (w.reads key k ∙ ground arith) in
      let p' = set_bucket-IsPlaced t₀ s key value now w.placed k gone reach in
      stored p' (set_bucket_capacity t₀ s key value now ∙ w.same_capacity) (λ j kj.
        set_bucket-view t₀ s key value now j w.placed p' kj (Reaches-lt reach)
        ∙ ground (arith, w.reads j kj, kj.0, kj.1))
  Outcome-Effect t t₀ key value now ev_key k large w (evicted s reach used idle) =
      let gone = Absent-view t₀ key w.placed k (w.reads key k ∙ ground arith) in
      let below = Reaches-lt reach in
      let p' = set_bucket-IsPlaced t₀ s key value now w.placed k gone reach in
      let live : IsKey (t₀.buckets s).key = (ground arith, ground arith) in
      replaced (t₀.buckets s).key (t₀.buckets s).value live (gone s below)
        (ground (
          arith,
          w.reads (t₀.buckets s).key live,
          gone s below,
          view-finds hash_funcs t₀ (t₀.buckets s).key s w.placed live below refl,
        ))
        p' (set_bucket_capacity t₀ s key value now ∙ w.same_capacity)
        (λ j kj.
          set_bucket-view t₀ s key value now j w.placed p' kj below ∙ ground (arith, w.reads j kj))
  Outcome-Effect t t₀ key value now ev_key k large w refused = kept_out w
  Outcome-Effect t t₀ key value now ev_key k large w (skipped small) = absurd (omega arith)

  -- In a well-placed table of more than 15 buckets, `Insert` of a key ends in one of four ways and
  -- throws nothing: it removes the duplicate, stores the pair, puts it in the place of one other
  -- pair, or hands it back; and every other key keeps its value.
  pub insert-Effect :
      (t : LinearProbing) (key value now ev_key : ℕ) (try_lock : ℕ → Bool)
      → IsPlaced hash_funcs t
      → IsKey key
      → max_probing_len < t.capacity
      → Effect t key value ev_key (insert hash_funcs t key value now ev_key try_lock)
  unfolding insert
  insert-Effect t key value now ev_key try_lock p k large =
      let d = delete_lem hash_funcs t key p k in
      let t₀ = (delete hash_funcs t key).1 in
      elim (Bool-cases ((delete hash_funcs t key).0 == no_value)) [
        | inl e ↦ rw e (
            Outcome-Effect t t₀ key value now ev_key k (rw d.1.same_capacity large) d.1 (
              insert_from-Outcome t₀ _ key value now ev_key try_lock t₀.capacity 0 no_victims k
                (omega arith) (omega arith) (λ j b. absurd (omega arith)) (tt, tt)))
        | inr e ↦ rw e (removed (delete hash_funcs t key).0 (some-value_of _ _ (sym d.0) e) d.1)
      ]
