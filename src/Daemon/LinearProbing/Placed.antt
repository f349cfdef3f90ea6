-- ===== src/Daemon/LinearProbing/Placed.antt =====
-- Where the keys of a table stand: the invariant, and what a write to one bucket does to it.
use cleancache_rdma.Prelude.{
  ℕ, zero, suc, ◌+◌, ◌%◌, ◌≤◌, ◌<◌, ◌≡◌, ◌≢◌, refl, sym, ap, subst, ◌∙◌, false, none, some, ◌==◌,
  Bool-cases, ==_iff, inl, inr, update, arith,
}
use cleancache_rdma.Daemon.Pair.{invalid, tombstone}
use cleancache_rdma.Daemon.LinearProbing.{
  Bucket, LinearProbing, new, max_probing_len, get_hashed_key,
}
use cleancache_rdma.Daemon.LinearProbing.Probe.{probe_from, probe}

-- a key that is none of the marks
abbrev pub IsKey : ℕ → Type 0
IsKey key = (key ≢ invalid) × (key ≢ tombstone)

-- the `j`-th slot that is probed from `loc`
abbrev pub slot_at : LinearProbing → ℕ → ℕ → ℕ
slot_at t loc j = (loc + j) % t.capacity

-- A search that starts at `loc` gets to `slot` before it meets an INVALID bucket or its length.
pub record Reaches (t : LinearProbing) (loc slot : ℕ) : Type 0 where
  pub steps : ℕ
  pub within : steps ≤ max_probing_len
  pub inside : steps < t.capacity
  pub arrives : slot_at t loc steps ≡ slot
  pub passes : (j : ℕ) → j < steps → (t.buckets (slot_at t loc j)).key ≢ invalid

-- one bucket replaced
abbrev pub put : LinearProbing → ℕ → Bucket → LinearProbing
put t s b = record t { buckets = update t.buckets s b }

pub Reaches-put :
    (t : LinearProbing) (s : ℕ) (b : Bucket) {loc slot : ℕ}
    → b.key ≢ invalid
    → Reaches t loc slot
    → Reaches (put t s b) loc slot
Reaches-put t s b ne r = record {
  steps = r.steps;
  within = r.within;
  inside = r.inside;
  arrives = r.arrives;
  passes = λ j h. ground (arith, r.passes j h);
}

lt_of_ne : (i n : ℕ) → i ≤ n → i ≢ n → i < n
lt_of_ne i n le ne = omega arith

miss_contradicts :
    (t : LinearProbing) (key loc i s steps : ℕ)
    → (t.buckets s).key ≡ key
    → slot_at t loc steps ≡ s
    → i ≡ steps
    → ((t.buckets (slot_at t loc i)).key == key) ≡ false
    → ⊥
miss_contradicts t key loc i s steps e arrives at miss =
    let hit : (t.buckets (slot_at t loc i)).key ≡ key = rw (at, arrives) e in ground (arith, hit)

module _ (hash_funcs : ℕ → ℕ → ℕ) where
  -- Every key in the table can be reached from where it hashes to, and stands in one slot only.
  pub record IsPlaced (t : LinearProbing) : Type 0 where
    pub pos : 0 < t.capacity
    pub reach :
        (s : ℕ)
        → s < t.capacity
        → IsKey (t.buckets s).key
        → Reaches t (get_hashed_key hash_funcs t (t.buckets s).key) s
    pub unique :
        (s s' : ℕ)
        → s < t.capacity
        → s' < t.capacity
        → IsKey (t.buckets s).key
        → (t.buckets s).key ≡ (t.buckets s').key
        → s ≡ s'

  pub new-IsPlaced : (capacity : ℕ) → 0 < capacity → IsPlaced (new capacity)
  unfolding new
  new-IsPlaced capacity h = record {
    pos = h;
    reach = λ s b k. absurd (k.0 refl);
    unique = λ s s' b b' k e. absurd (k.0 refl);
  }

  probe_from-finds :
      (t : LinearProbing) (key loc s : ℕ)
      → IsPlaced t
      → IsKey key
      → s < t.capacity
      → (t.buckets s).key ≡ key
      → (r : Reaches t loc s) (n i : ℕ) → n + i ≡ t.capacity
      → i ≤ r.steps
      → probe_from t key loc n i ≡ some s
  unfolding probe_from
  probe_from-finds t key loc s p k b e r zero i total le = absurd (omega (arith, r.inside))
  probe_from-finds t key loc s p k b e r (suc n) i total le =
      elim (Bool-cases ((t.buckets (slot_at t loc i)).key == key)) [
        | inl hit ↦
            let same : (t.buckets (slot_at t loc i)).key ≡ key = (==_iff _ key).0 hit in
            let here : slot_at t loc i < t.capacity = grind (arith, p.pos) in
            rw hit (ap some (sym (p.unique s (slot_at t loc i) b here (rw e k) (e ∙ sym same))))
        | inr miss ↦
            let short : i < r.steps =
              lt_of_ne i r.steps le
                (λ at. miss_contradicts t key loc i s r.steps e r.arrives at miss) in
            ground
              (arith, r.passes i short, r.within, probe_from-finds t key loc s p k b e r n (i + 1))
      ]

module _ (hash_funcs : ℕ → ℕ → ℕ) where
  -- A write that puts no INVALID mark, and a key only where it is reached and nowhere else, keeps
  -- the invariant.
  pub put-IsPlaced :
      (t : LinearProbing) (s : ℕ) (b : Bucket)
      → IsPlaced hash_funcs t
      → b.key ≢ invalid
      → (IsKey b.key → Reaches t (get_hashed_key hash_funcs t b.key) s)
      → ((s' : ℕ) → s' < t.capacity → s' ≢ s → IsKey b.key → (t.buckets s').key ≢ b.key)
      → IsPlaced hash_funcs (put t s b)
  put-IsPlaced t s b p ne reached alone = record {
    pos = p.pos;
    reach = λ s' below k. elim (Bool-cases (s == s')) [
      | inl e ↦ rw e (
          subst (Reaches (put t s b) (get_hashed_key hash_funcs t b.key)) ((==_iff s s').0 e)
            (Reaches-put t s b ne (reached (rw e at k))))
      | inr e ↦ rw e (Reaches-put t s b ne (p.reach s' below (rw e at k)))
    ];
    unique = λ s₁ s₂ b₁ b₂ k same. ground (arith, p.unique s₁ s₂ b₁ b₂, alone s₁ b₁, alone s₂ b₂);
  }

none-ne-some : {s : ℕ} → none ≡ some s → ⊥
none-ne-some e = cc

module _ (hash_funcs : ℕ → ℕ → ℕ) where
  -- A key that stands in the table is found.
  pub probe-finds :
      (t : LinearProbing) (key s : ℕ)
      → IsPlaced hash_funcs t
      → IsKey key
      → s < t.capacity
      → (t.buckets s).key ≡ key
      → probe hash_funcs t key ≡ some s
  unfolding probe
  probe-finds t key s p k below e =
      let r : Reaches t (get_hashed_key hash_funcs t key) s =
        subst (λ x. Reaches t (get_hashed_key hash_funcs t x) s) e (p.reach s below (rw e k)) in
      probe_from-finds hash_funcs t key _ s p k below e r t.capacity 0 (omega arith) (omega arith)

  probe_from_sound :
      (t : LinearProbing) (key loc n i s : ℕ)
      → 0 < t.capacity
      → probe_from t key loc n i ≡ some s
      → (s < t.capacity) × ((t.buckets s).key ≡ key)
  unfolding probe_from
  probe_from_sound t key loc zero i s pos e = absurd (none-ne-some e)
  probe_from_sound t key loc (suc n) i s pos e =
      grind (arith, probe_from_sound t key loc n (i + 1) s pos)

  -- What is found holds the key.
  pub probe_sound :
      (t : LinearProbing) (key s : ℕ)
      → 0 < t.capacity
      → probe hash_funcs t key ≡ some s
      → (s < t.capacity) × ((t.buckets s).key ≡ key)
  unfolding probe
  probe_sound t key s pos e = probe_from_sound t key _ t.capacity 0 s pos e
