-- ===== src/Daemon/LinearProbing/View.antt =====
-- A table as a map from keys to values.
use cleancache_rdma.Prelude.{
  ℕ, ◌<◌, ◌≡◌, ◌≢◌, sym, ap, ◌∙◌, Option, none, some, ◌==◌, if◌then◌else◌, Bool-cases, Option-cases,
  ==_iff, inl, inr, arith,
}
use cleancache_rdma.Daemon.LinearProbing.{Bucket, LinearProbing}
use cleancache_rdma.Daemon.LinearProbing.Probe.{found, probe}
use cleancache_rdma.Daemon.LinearProbing.Placed.{IsKey, IsPlaced, put, probe-finds, probe_sound}

module _ (hash_funcs : ℕ → ℕ → ℕ) where
  -- The abstract map: the value that stands beside a key.
  unfoldable pub view : LinearProbing → ℕ → Option ℕ
  view t key = found none (λ s. some (t.buckets s).value) (probe hash_funcs t key)

  -- no bucket holds the key
  abbrev pub Absent : LinearProbing → ℕ → Type 0
  Absent t key = (s : ℕ) → s < t.capacity → (t.buckets s).key ≢ key

  pub view-finds :
      (t : LinearProbing) (key s : ℕ)
      → IsPlaced hash_funcs t
      → IsKey key
      → s < t.capacity
      → (t.buckets s).key ≡ key
      → view t key ≡ some (t.buckets s).value
  unfolding view
  view-finds t key s p k below e = rw (probe-finds hash_funcs t key s p k below e)

  pub probe-Absent :
      (t : LinearProbing) (key : ℕ)
      → IsPlaced hash_funcs t
      → Absent t key
      → probe hash_funcs t key ≡ none
  probe-Absent t key p absent = elim (Option-cases (probe hash_funcs t key)) [
    | inl e ↦ e
    | inr (s, e) ↦ let at = probe_sound hash_funcs t key s p.pos e in absurd (absent s at.0 at.1)
  ]

  pub view-Absent :
      (t : LinearProbing) (key : ℕ) → IsPlaced hash_funcs t → Absent t key → view t key ≡ none
  unfolding view
  view-Absent t key p absent = rw (probe-Absent t key p absent)

  pub Absent-probe :
      (t : LinearProbing) (key : ℕ)
      → IsPlaced hash_funcs t
      → IsKey key
      → probe hash_funcs t key ≡ none
      → Absent t key
  Absent-probe t key p k e s below at = let hit = probe-finds hash_funcs t key s p k below at in cc

  -- A bucket that is replaced, under the invariant before and after: its new key gets its new
  -- value, its old key is gone, and no other key is touched.
  pub view-put :
      (t : LinearProbing) (s : ℕ) (b : Bucket) (key : ℕ)
      → IsPlaced hash_funcs t
      → IsPlaced hash_funcs (put t s b)
      → IsKey key
      → s < t.capacity
      → view (put t s b) key ≡ (
          if b.key == key
          then some b.value
          else if (t.buckets s).key == key
          then none
          else view t key)
  view-put t s b key p p' k below = elim (Bool-cases (b.key == key)) [
    | inl fresh ↦
        let here : (put t s b).buckets s ≡ b = ground arith in
        rw fresh (
          view-finds (put t s b) key s p' k below (rw here ((==_iff b.key key).0 fresh))
          ∙ ap (λ (x : Bucket). some x.value) here)
    | inr other ↦ elim (Bool-cases ((t.buckets s).key == key)) [
      | inl old ↦
          rw (other, old)
            (view-Absent (put t s b) key p'
              (λ s' below'. ground (arith, p.unique s s' below below')))
      | inr away ↦
          rw (other, away)
            (elim (Option-cases (probe hash_funcs t key)) [
              | inl gone ↦
                  let absent = Absent-probe t key p k gone in
                  view-Absent (put t s b) key p' (λ s' below'. ground (arith, absent s' below'))
                  ∙ sym (view-Absent t key p absent)
              | inr (s', at) ↦
                  let (below', e) = probe_sound hash_funcs t key s' p.pos at in
                  let kept : (put t s b).buckets s' ≡ t.buckets s' = ground arith in
                  view-finds (put t s b) key s' p' k below' (rw kept e)
                  ∙ ap (λ (x : Bucket). some x.value) kept
                  ∙ sym (view-finds t key s' p k below' e)
            ])
    ]
  ]
