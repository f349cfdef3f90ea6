-- ===== src/Daemon/Pages/Evictions.antt =====
-- `Evict` of KV takes a page out of a table and frees it.
use cleancache_rdma.Prelude.{
  ◌∙◌, if◌then◌else◌, ltb, true, ℕ, ◌≡◌, ◌⊎◌, inl, inr, refl, true, sym, ap, subst, List, ◌∷◌,
  Option, none, some, Array, ◌==◌, ◌||◌, update, arith, Bool-cases, ==_iff,
}
use cleancache_rdma.Daemon.Pair.{invalid, tombstone, no_value, Run, ok, throw, client_out_of_range}
use cleancache_rdma.Daemon.Longkey.{longkey_to_cid}
use cleancache_rdma.Daemon.LockFreeStack.{no_addr}
use cleancache_rdma.Daemon.LinearProbing.{LinearProbing}
use cleancache_rdma.Daemon.LinearProbing.Placed.{IsKey, IsPlaced}
use cleancache_rdma.Daemon.LinearProbing.View.{view, view-finds}
use cleancache_rdma.Daemon.LinearProbing.Store.{Without}
use cleancache_rdma.Daemon.LinearProbing.Evict
use cleancache_rdma.Daemon.LinearProbing.Evicted.{Taken, taken, HasValues, evict-Taken_or_none}
use cleancache_rdma.Daemon.Kv.{Kv, Chance, victim_shard, set_shard, cbf_remove}
use cleancache_rdma.Daemon.Kv
use cleancache_rdma.Daemon.PerCpuPool.{put_free_addr}
use cleancache_rdma.Daemon.PerCpuPool
use cleancache_rdma.Daemon.Kv.Shards.{freed}
use cleancache_rdma.Daemon.Pages.{Owned, count, count_entry, entries, put_entry, under}
use cleancache_rdma.Daemon.Pages.Moves.{mk, Has-first, unstore, same_entries}
use cleancache_rdma.Daemon.Pages.Pool.{free_page}
use cleancache_rdma.Daemon.Pages.Tables.{AreTables, Keeps}

module _ (hash_funcs : ℕ → ℕ → ℕ) where
  Without-AreTables :
      (hashes : Array LinearProbing) (shard key : ℕ) (t : LinearProbing)
      → AreTables hash_funcs hashes
      → Without hash_funcs (hashes shard) key t
      → AreTables hash_funcs (update hashes shard t)
  Without-AreTables hashes shard key t tables w = record {
    placed = λ s. elim (Bool-cases (shard == s)) [
      | inl e ↦ rw e w.placed
      | inr e ↦ rw e (tables.placed s)
    ];
    large = λ s. elim (Bool-cases (shard == s)) [
      | inl e ↦ rw e (omega (arith, w.same_capacity, tables.large shard))
      | inr e ↦ rw e (tables.large s)
    ];
  }

  Without-here :
      (hashes : Array LinearProbing) (shard key : ℕ) (t : LinearProbing)
      → Without hash_funcs (hashes shard) key t
      → (k : ℕ)
      → entries hash_funcs (update hashes shard t) shard k
        ≡ put_entry (entries hash_funcs hashes) shard key none shard k
  Without-here hashes shard key t w k =
      let self : (shard == shard) ≡ true = ground arith in
      elim (Bool-cases (k == invalid || k == tombstone)) [
        | inl m ↦ elim (Bool-cases (key == k)) [
          | inl e ↦ rw (self, m, e) refl
          | inr e ↦ rw (self, m, e) refl
        ]
        | inr m ↦
            let reads = w.reads k (ground arith, ground arith) in
            elim (Bool-cases (key == k)) [
              | inl e ↦ rw (self, m, reads, e) refl
              | inr e ↦ rw (self, m, reads, e) refl
            ]
      ]

  Without-entries :
      (hashes : Array LinearProbing) (shard key : ℕ) (t : LinearProbing)
      → Without hash_funcs (hashes shard) key t
      → (s k : ℕ)
      → entries hash_funcs (update hashes shard t) s k
        ≡ put_entry (entries hash_funcs hashes) shard key none s k
  Without-entries hashes shard key t w s k = elim (Bool-cases (shard == s)) [
    | inl e ↦
        subst
          (λ x.
            entries hash_funcs (update hashes shard t) x k
            ≡ put_entry (entries hash_funcs hashes) shard key none x k)
          ((==_iff shard s).0 e) (Without-here hashes shard key t w k)
    | inr e ↦ rw e refl
  ]

  module _ (all : List ℕ) (real : count no_addr all ≡ 0) (some_page : count no_value all ≡ 0)
      (posted hand : List ℕ) where
    -- No pair has the value NONE.
    Owned-HasValues :
        (hashes : Array LinearProbing) (free : Array (List ℕ)) (shard : ℕ)
        → IsPlaced hash_funcs (hashes shard)
        → Owned all (mk posted hand free (entries hash_funcs hashes))
        → HasValues (hashes shard)
    Owned-HasValues hashes free shard placed o s live e =
        let key = ((hashes shard).buckets s).key in
        let found = view-finds hash_funcs (hashes shard) key s placed live.1 live.0 refl in
        let stored : entries hash_funcs hashes shard key ≡ some no_value =
          ground (arith, found, e, live.1.0, live.1.1) in
        elim (o no_value) [
          | inl (c, gone) ↦
              let none_there : count_entry no_value (entries hash_funcs hashes shard key) ≡ 0 =
                gone (under shard key) in
              let one_there : count_entry no_value (some no_value) ≡ 0 =
                subst (λ x. count_entry no_value x ≡ 0) stored none_there in
              absurd (omega arith)
          | inr (c, l, there) ↦ absurd (omega arith)
        ]

    -- The pair that `Evict` of the table took out.
    evicted-Keeps :
        (kv : Kv) (shard key value rand : ℕ) (t : LinearProbing)
        → Keeps hash_funcs all posted kv.hashes kv.pool hand
        → IsKey key
        → view hash_funcs (kv.hashes shard) key ≡ some value
        → Without hash_funcs (kv.hashes shard) key t
        → Keeps hash_funcs all posted
            (update kv.hashes shard t)
            (freed kv.pool value (longkey_to_cid key) rand)
            hand
    unfolding PerCpuPool.free put_free_addr
    evicted-Keeps kv shard key value rand t keeps live e w =
        let out =
          same_entries all posted (value ∷ hand) kv.pool.freelist _ _
            (Without-entries kv.hashes shard key t w)
            (unstore all posted hand kv.pool.freelist _ value keeps.owned shard key
              (ground (arith, e, live.0, live.1))) in
        let f =
          free_page all posted (value ∷ hand) _ kv.pool keeps.pool out real value
            (longkey_to_cid key) rand hand (Has-first value hand) in
        record {
          tables = Without-AreTables kv.hashes shard key t keeps.tables w;
          pool = f.0;
          known = λ s k v at.
              keeps.known s k v
                (ground (arith, sym (Without-entries kv.hashes shard key t w s k) ∙ at));
          owned = f.1;
        }

    -- what `Evict` of KV does with the pair that the table's `Evict` took out
    abbrev after_eviction : Kv → ℕ → ℕ → Option (Run (ℕ × ℕ × LinearProbing)) → Option (Run Kv)
    after_eviction kv shard rand r = elim r [
      | none ↦ none
      | some (throw e) ↦ some (throw e)
      | some (ok (key, value, t)) ↦
          let ev_cid = longkey_to_cid key in
          if ltb ev_cid kv.pool.num_clients
          then some (
              ok (
                cbf_remove hash_funcs (Kv.free (set_shard kv shard t) value ev_cid rand) ev_cid
                  key))
          else some (throw client_out_of_range)
    ]

    taken-Keeps :
        (kv : Kv) (shard rand : ℕ) (r : Option (Run (ℕ × ℕ × LinearProbing)))
        → Keeps hash_funcs all posted kv.hashes kv.pool hand
        → Taken hash_funcs (kv.hashes shard) r
        → (kv' : Kv) × (after_eviction kv shard rand r ≡ some (ok kv'))
          × Keeps hash_funcs all posted kv'.hashes kv'.pool hand
    unfolding cbf_remove
    taken-Keeps kv shard rand r keeps (taken key value {t'} live e valued w) =
        let client : ltb (longkey_to_cid key) kv.pool.num_clients ≡ true =
          ground (arith, keeps.known shard key value (ground (arith, e, live.0, live.1))) in
        rw client (_, refl, evicted-Keeps kv shard key value rand t' keeps live e w)

    evict_at-Keeps :
        (kv : Kv) (shard : ℕ) (c : Chance hash_funcs) (t : LinearProbing)
        → t ≡ kv.hashes shard
        → Keeps hash_funcs all posted kv.hashes kv.pool hand
        → let r =
            after_eviction kv shard c.rand
              (Evict.evict c.draw c.try_lock c.try_prev t c.attempts) in
          (r ≡ none)
          ⊎ ((kv' : Kv) × (r ≡ some (ok kv'))
              × Keeps hash_funcs all posted kv'.hashes kv'.pool hand)
    evict_at-Keeps kv shard c t same keeps =
        rw same
          (elim (evict-Taken_or_none hash_funcs c.draw c.try_lock c.try_prev (kv.hashes shard)
            (keeps.tables.placed shard)
            (Owned-HasValues kv.hashes kv.pool.freelist shard (keeps.tables.placed shard)
              keeps.owned)
            (keeps.tables.large shard) c.attempts) [
              | inl e ↦ inl (rw e refl)
              | inr out ↦ inr (taken-Keeps kv shard c.rand _ keeps out)
            ])

    victim_shard-same :
        (kv : Kv)
        → ((victim_shard hash_funcs kv).1.hashes ≡ kv.hashes)
          × ((victim_shard hash_funcs kv).1.pool ≡ kv.pool)
    unfolding victim_shard
    victim_shard-same kv = elim (Bool-cases (kv.num_ht_shards == 1)) [
      | inl e ↦ rw e (refl, refl)
      | inr e ↦ rw e (refl, refl)
    ]

    -- `Evict` of KV still tries, or it returns and each page is in one place again.
    pub evict-Keeps :
        (kv : Kv) (c : Chance hash_funcs)
        → Keeps hash_funcs all posted kv.hashes kv.pool hand
        → (Kv.evict hash_funcs kv c ≡ none)
          ⊎ ((kv' : Kv) × (Kv.evict hash_funcs kv c ≡ some (ok kv'))
              × Keeps hash_funcs all posted kv'.hashes kv'.pool hand)
    unfolding Kv.evict
    evict-Keeps kv c keeps =
        let (shard, after) = victim_shard hash_funcs kv in
        let (hashes, pool) = victim_shard-same kv in
        evict_at-Keeps after shard c (kv.hashes shard) (ap (λ h. h shard) (sym hashes))
          (rw (hashes, pool) keeps)
