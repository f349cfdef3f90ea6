-- ===== src/Daemon/Kv/Update.antt =====
-- What `Insert` of KV does to the tables, the pool and the filters.
use cleancache_rdma.Prelude.{
  ℕ, suc, ◌<◌, ◌≡◌, ◌≢◌, ◌⊎◌, inl, inr, refl, sym, ap, subst, ◌∙◌, Bool, false, true, ltb, Option,
  none, some, ◌==◌, if◌then◌else◌, Bool-cases, Option-cases, ==_iff, update, arith,
}
use cleancache_rdma.Prelude.Int.{pos}
use cleancache_rdma.Daemon.Pair.{invalid, no_value, Run, ok}
use cleancache_rdma.Daemon.Longkey.{longkey_to_cid}
use cleancache_rdma.Daemon.LinearProbing.{LinearProbing, Inserted, max_probing_len}
use cleancache_rdma.Daemon.LinearProbing.Placed.{IsKey, IsPlaced}
use cleancache_rdma.Daemon.LinearProbing.View.{view}
use cleancache_rdma.Daemon.LinearProbing.Store.{value_of, Without, delete_lem}
use cleancache_rdma.Daemon.LinearProbing.Effect.{
  Effect, removed, stored, replaced, kept_out, insert-Effect,
}
use cleancache_rdma.Daemon.LinearProbing
use cleancache_rdma.Daemon.PerCpuPool.{PerCpuPool, put_free_addr}
use cleancache_rdma.Daemon.PerCpuPool
use cleancache_rdma.Daemon.Kv.{
  Kv, get_ht_shard_id, cbf_insert, cbf_remove, settle, insert, free, set_shard,
}
use cleancache_rdma.Daemon.Kv.Shards.{
  freed, shard_of, added, dropped, Reads, Valued, Known, Follows, Follows-self, Reads-update,
}

-- Two entries that agree away from the key.
other_key :
    (key j : ℕ) (a : Option ℕ) {b c : Option ℕ}
    → (key ≢ j → b ≡ c)
    → (if key == j then a else b) ≡ (if key == j then a else c)
other_key key j a h = elim (Bool-cases (key == j)) [
  | inl e ↦ rw e
  | inr e ↦ rw e (h (ground arith))
]

module _ (hash_funcs : ℕ → ℕ → ℕ) where
  -- The ways that `Insert` ends once no old value of the key is left, from the pool `pool`.
  pub data Settled (kv : Kv) (pool : PerCpuPool) (key value cid : ℕ)
      : Option (Run Kv) → Type 0 where
    put :
        {kv' : Kv}
        → Reads hash_funcs kv kv' key
            (λ k. if key == k then some value else view hash_funcs (shard_of hash_funcs kv key) k)
        → kv'.pool ≡ pool
        → kv'.cbfs ≡ added hash_funcs kv cid key
        → Settled kv pool key value cid (some (ok kv'))
    -- one other pair makes room: its page is freed for the client of its key
    displaced :
        {kv' : Kv} (victim old rand : ℕ)
        → IsKey victim
        → victim ≢ key
        → view hash_funcs (shard_of hash_funcs kv key) victim ≡ some old
        → Reads hash_funcs kv kv' key (λ k.
          if key == k
          then some value
          else if victim == k
          then none
          else view hash_funcs (shard_of hash_funcs kv key) k)
        → kv'.pool ≡ freed pool old (longkey_to_cid victim) rand
        → kv'.cbfs
          ≡ added hash_funcs
              (record kv { cbfs = dropped hash_funcs kv (longkey_to_cid victim) victim })
              cid
              key
        → Settled kv pool key value cid (some (ok kv'))
    -- the page itself is freed
    turned_away :
        {kv' : Kv} (rand : ℕ)
        → Reads hash_funcs kv kv' key
            (λ k. if key == k then none else view hash_funcs (shard_of hash_funcs kv key) k)
        → kv'.pool ≡ freed pool value (longkey_to_cid key) rand
        → kv'.cbfs ≡ kv.cbfs
        → Settled kv pool key value cid (some (ok kv'))

  -- One round of `Insert` in which the table ends in a known way.
  round-Settled :
      (kv cur : Kv) (key value cid fuel : ℕ) (rand : ℕ → ℕ) (now : ℕ) (try_lock : ℕ → Bool)
      {r : Run Inserted}
      → Follows hash_funcs kv cur key
      → IsKey key
      → value ≢ no_value
      → Valued hash_funcs kv key
      → Known hash_funcs kv key
      → longkey_to_cid key < kv.pool.num_clients
      → LinearProbing.insert hash_funcs
          (cur.hashes (get_ht_shard_id hash_funcs kv key))
          key
          value
          now
          invalid
          try_lock
        ≡ r
      → Effect hash_funcs (cur.hashes (get_ht_shard_id hash_funcs kv key)) key value invalid r
      → ((old : ℕ) (t' : LinearProbing)
          → view hash_funcs (cur.hashes (get_ht_shard_id hash_funcs kv key)) key ≡ some old
          → Without hash_funcs (cur.hashes (get_ht_shard_id hash_funcs kv key)) key t'
          → Settled kv cur.pool key value cid
              (insert hash_funcs (suc fuel) cur key value cid rand now try_lock))
      → Settled kv cur.pool key value cid
          (insert hash_funcs (suc fuel) cur key value cid rand now try_lock)
  unfolding insert settle cbf_insert cbf_remove
  round-Settled kv cur key value cid fuel rand now try_lock f k v vals seen own e (removed old at w)
        again =
      again old _ at w
  round-Settled kv cur key value cid fuel rand now try_lock f k v vals seen own e
        (stored p same reads) again =
      rw (insert, f.shard, e)
        (put
          (Reads-update hash_funcs kv cur _ key _ _ f p same
            (λ j kj. reads j kj ∙ other_key key j _ (f.entries j kj)) (rw f.shard))
          refl (rw (f.switch, f.filters)))
  round-Settled kv cur key value cid fuel rand now try_lock f k v vals seen own e
        (replaced victim old live apart at p same reads) again =
      let before = sym (f.entries victim live (λ x. apart (sym x))) ∙ at in
      let victim_key : (victim == invalid) ≡ false = ground (arith, live.0) in
      let old_value : (old == no_value) ≡ false =
        ground (arith, λ (x : old ≡ no_value). vals victim live (before ∙ ap some x)) in
      let client : ltb (longkey_to_cid victim) cur.pool.num_clients ≡ true =
        ground (arith, seen victim old live before, f.clients) in
      rw (insert, f.shard, e, victim_key, old_value, client)
        (displaced victim old (rand fuel) live apart before
          (Reads-update hash_funcs kv cur _ key _ _ f p same
            (λ j kj.
              reads j kj
              ∙ other_key key j _ (λ other. other_key victim j _ (λ _. f.entries j kj other)))
            (rw f.shard))
          refl (rw (f.switch, f.filters)))
  round-Settled kv cur key value cid fuel rand now try_lock f k v vals seen own e (kept_out w)
        again =
      let own_key : (key == invalid) ≡ false = ground (arith, k.0) in
      let own_value : (value == no_value) ≡ false = ground (arith, v) in
      let client : ltb (longkey_to_cid key) cur.pool.num_clients ≡ true =
        ground (arith, own, f.clients) in
      rw (insert, f.shard, e, own_key, own_value, client)
        (turned_away (rand fuel)
          (Reads-update hash_funcs kv cur _ key _ _ f w.placed w.same_capacity
            (λ j kj. w.reads j kj ∙ other_key key j _ (f.entries j kj)) (rw f.shard))
          refl (rw (f.filters)))

  duplicate :
      (t : LinearProbing) (key value now old : ℕ) (try_lock : ℕ → Bool)
      → IsPlaced hash_funcs t
      → IsKey key
      → view hash_funcs t key ≡ some old
      → old ≢ no_value
      → (t' : LinearProbing) × (LinearProbing.insert hash_funcs t key value now invalid try_lock
          ≡ ok (record { ret = pos 0; ev_key = invalid; ev_value = old; table = t' }))
        × Without hash_funcs t key t'
  unfolding LinearProbing.insert
  duplicate t key value now old try_lock p k at real =
      let d = delete_lem hash_funcs t key p k in
      let found : (LinearProbing.delete hash_funcs t key).0 ≡ old = d.0 ∙ ap value_of at in
      let old_value : (old == no_value) ≡ false = ground (arith, real) in
      ((LinearProbing.delete hash_funcs t key).1, rw (found, old_value), d.1)

  gone :
      {A : Type 0} {t t' : LinearProbing} {key old : ℕ}
      → IsKey key
      → Without hash_funcs t key t'
      → view hash_funcs t' key ≡ some old
      → A
  gone {A} {t} {t'} {key} k w at =
      let none_left : view hash_funcs t' key ≡ none =
        w.reads key k ∙ rw ((==_iff key key).1 refl) in
      absurd (ground arith)

  -- A duplicate leads to a second round, from tables and pool without it.
  first_round :
      (fuel : ℕ) (kv : Kv) (key value cid : ℕ) (rand : ℕ → ℕ) (now : ℕ) (try_lock : ℕ → Bool)
      (old : ℕ) (t' : LinearProbing)
      → (old == no_value) ≡ false
      → LinearProbing.insert hash_funcs (shard_of hash_funcs kv key) key value now invalid try_lock
        ≡ ok (record { ret = pos 0; ev_key = invalid; ev_value = old; table = t' })
      → insert hash_funcs (suc fuel) kv key value cid rand now try_lock
        ≡ insert hash_funcs fuel
            (free (set_shard kv (get_ht_shard_id hash_funcs kv key) t') old cid (rand fuel))
            key
            value
            cid
            rand
            now
            try_lock
  unfolding insert settle
  first_round fuel kv key value cid rand now try_lock old t' real e = rw (insert, e, real)

  Follows-set :
      (kv : Kv) (key : ℕ) (t' : LinearProbing) (old cid rand : ℕ)
      → Without hash_funcs (shard_of hash_funcs kv key) key t'
      → Follows hash_funcs kv
          (free (set_shard kv (get_ht_shard_id hash_funcs kv key) t') old cid rand)
          key
  unfolding get_ht_shard_id PerCpuPool.free put_free_addr
  Follows-set kv key t' old cid rand w =
      let sh = get_ht_shard_id hash_funcs kv key in
      let here : update kv.hashes sh t' sh ≡ t' = rw ((==_iff sh sh).1 refl) in
      record {
        shard = refl;
        entries = λ j kj other.
            let apart : (key == j) ≡ false = ground arith in rw here (w.reads j kj ∙ rw apart);
        others = λ s away. let apart : (sh == s) ≡ false = ground arith in rw apart;
        same_capacity = rw here w.same_capacity;
        switch = refl;
        filters = refl;
        clients = refl;
      }

  -- `Insert` of a key and a page, in a well-placed shard of more than 15 buckets whose pairs all have
  -- pages and whose keys, like the new one, are of clients that there are, returns in at most two
  -- rounds and throws nothing. The old page of the key is freed, if
  -- there is one. Then the pair is stored, if need be in the place of one other pair, whose page is
  -- freed and which is taken from its client's filter; or the new page itself is freed.
  pub insert-Settled :
      (kv : Kv) (key value cid : ℕ) (rand : ℕ → ℕ) (now : ℕ) (try_lock : ℕ → Bool)
      → IsPlaced hash_funcs (shard_of hash_funcs kv key)
      → max_probing_len < (shard_of hash_funcs kv key).capacity
      → IsKey key
      → value ≢ no_value
      → Valued hash_funcs kv key
      → Known hash_funcs kv key
      → longkey_to_cid key < kv.pool.num_clients
      → ((view hash_funcs (shard_of hash_funcs kv key) key ≡ none)
          × Settled kv kv.pool key value cid
              (insert hash_funcs 2 kv key value cid rand now try_lock))
        ⊎ ((old : ℕ) × (view hash_funcs (shard_of hash_funcs kv key) key ≡ some old)
            × Settled kv
                (freed kv.pool old cid (rand 1))
                key
                value
                cid
                (insert hash_funcs 2 kv key value cid rand now try_lock))
  insert-Settled kv key value cid rand now try_lock p large k v vals seen own =
      let sh = get_ht_shard_id hash_funcs kv key in
      let t = kv.hashes sh in
      elim (Option-cases (view hash_funcs t key)) [
        | inl e ↦ inl (
          e,
          round-Settled kv kv key value cid 1 rand now try_lock (Follows-self hash_funcs kv key) k v
              vals seen own refl
              (insert-Effect hash_funcs t key value now invalid try_lock p k large)
              (λ old t' at w. absurd (ground arith)),
        )
        | inr (old, e) ↦
            let real = λ (x : old ≡ no_value). vals key k (e ∙ ap some x) in
            let old_value : (old == no_value) ≡ false = ground (arith, real) in
            let (t', er, w) = duplicate t key value now old try_lock p k e real in
            let cur = free (set_shard kv sh t') old cid (rand 1) in
            let here : cur.hashes sh ≡ t' = rw ((==_iff sh sh).1 refl) in
            let f = Follows-set kv key t' old cid (rand 1) w in
            inr (
              old,
              e,
              subst (Settled kv cur.pool key value cid)
                  (sym (first_round 1 kv key value cid rand now try_lock old t' old_value er))
                  (round-Settled kv cur key value cid 0 rand now try_lock f k v vals seen own refl
                    (insert-Effect hash_funcs (cur.hashes sh) key value now invalid try_lock
                      (rw here w.placed) k (rw (here, w.same_capacity) large))
                    (λ again t'' at w'.
                      gone k w (subst (λ x. view hash_funcs x key ≡ some again) here at))),
            )
      ]
