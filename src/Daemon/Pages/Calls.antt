-- ===== src/Daemon/Pages/Calls.antt =====
-- The calls of KV keep each page in one place.
use cleancache_rdma.Prelude.{
  ◌<◌, ◌==◌, if◌then◌else◌, Bool-cases, ℕ, ◌≡◌, ◌≢◌, inl, inr, refl, sym, ap, ◌∙◌, subst, List, ◌∷◌,
  Option, none, some, Array, arith, Bool, Option-cases,
}
use cleancache_rdma.Daemon.Pair.{no_value}
use cleancache_rdma.Daemon.LockFreeStack.{no_addr}
use cleancache_rdma.Daemon.LinearProbing.Placed.{IsKey}
use cleancache_rdma.Daemon.LinearProbing.View.{view}
use cleancache_rdma.Daemon.LinearProbing.Store.{value_of}
use cleancache_rdma.Daemon.Longkey.{longkey_to_cid}
use cleancache_rdma.Daemon.PerCpuPool.{put_free_addr}
use cleancache_rdma.Daemon.PerCpuPool
use cleancache_rdma.Daemon.Kv.{Kv, get_ht_shard_id}
use cleancache_rdma.Daemon.Kv
use cleancache_rdma.Daemon.Kv.Shards.{Reads, freed, shard_of, Valued}
use cleancache_rdma.Daemon.Kv.Update.{insert-Settled}
use cleancache_rdma.Daemon.Kv.Removal.{remove-Removed}
use cleancache_rdma.Daemon.Pages.{Owned, count, count_entry, entries, put_entry, under}
use cleancache_rdma.Daemon.Pages.Counts.{in_hand_page}
use cleancache_rdma.Daemon.Pages.Moves.{mk, Has-first, unstore, same_entries}
use cleancache_rdma.Daemon.Pages.Pool.{free_page}
use cleancache_rdma.Daemon.Pages.Tables.{
  Keeps, Done, Settled-Done, Reads-AreTables, Reads-entries, AreKnown, Reads-AreKnown,
}

put_same :
    (stored : ℕ → ℕ → Option ℕ) (shard key : ℕ) (o : Option ℕ)
    → stored shard key ≡ o
    → (s k : ℕ) → put_entry stored shard key o s k ≡ stored s k
put_same stored shard key o e s k = ground (arith, e)

module _ (hash_funcs : ℕ → ℕ → ℕ) (all : List ℕ) (real : count no_addr all ≡ 0)
    (some_page : count no_value all ≡ 0) (posted hand : List ℕ) where
  -- No entry is NONE.
  Owned-Valued :
      (kv : Kv) (key : ℕ) (free : Array (List ℕ)) (hand' : List ℕ)
      → Owned all (mk posted hand' free (entries hash_funcs kv.hashes))
      → Valued hash_funcs kv key
  Owned-Valued kv key free hand' o k live e =
      let sh = get_ht_shard_id hash_funcs kv key in
      let stored : entries hash_funcs kv.hashes sh k ≡ some no_value =
        ground (arith, e, live.0, live.1) in
      elim (o no_value) [
        | inl (c, gone) ↦
            let none_there : count_entry no_value (entries hash_funcs kv.hashes sh k) ≡ 0 =
              gone (under sh k) in
            let one_there : count_entry no_value (some no_value) ≡ 0 =
              subst (λ x. count_entry no_value x ≡ 0) stored none_there in
            absurd (omega arith)
        | inr (c, l, there) ↦ absurd (omega arith)
      ]

  -- `Insert` of the page in hand returns, and every page is in one place.
  pub insert-Done :
      (kv : Kv) (key value cid : ℕ) (rand : ℕ → ℕ) (now : ℕ) (try_lock : ℕ → Bool)
      → IsKey key
      → longkey_to_cid key < kv.pool.num_clients
      → Keeps hash_funcs all posted kv.hashes kv.pool (value ∷ hand)
      → Done hash_funcs all posted (Kv.insert hash_funcs 2 kv key value cid rand now try_lock) hand
  unfolding PerCpuPool.free put_free_addr
  insert-Done kv key value cid rand now try_lock live own keeps =
      let sh = get_ht_shard_id hash_funcs kv key in
      let page =
        in_hand_page all (mk posted (value ∷ hand) kv.pool.freelist (entries hash_funcs kv.hashes))
          value no_value hand (Has-first value hand) keeps.owned some_page in
      elim (insert-Settled hash_funcs kv key value cid rand now try_lock (keeps.tables.placed sh)
        (keeps.tables.large sh) live page
        (Owned-Valued kv key kv.pool.freelist (value ∷ hand) keeps.owned)
        (λ k old kl at. keeps.known sh k old (ground (arith, at, kl.0, kl.1))) own) [
          | inl (none_yet, s) ↦
              Settled-Done hash_funcs all posted hand real kv kv.pool key value cid keeps.tables
                live keeps.known own keeps.pool
                (same_entries all posted (value ∷ hand) kv.pool.freelist _ _
                  (put_same _ sh key none (ground (arith, none_yet))) keeps.owned)
                s
          | inr (old, there, s) ↦
              let o1 =
                unstore all posted (value ∷ hand) kv.pool.freelist _ old keeps.owned sh key
                  (ground (arith, there, live.0, live.1)) in
              let fr =
                free_page all posted (old ∷ value ∷ hand) _ kv.pool keeps.pool o1 real old cid
                  (rand 1) (value ∷ hand) (Has-first old (value ∷ hand)) in
              Settled-Done hash_funcs all posted hand real kv (freed kv.pool old cid (rand 1)) key
                value cid keeps.tables live keeps.known own fr.0 fr.1 s
        ]

  -- what a removal leaves is of the same clients
  removed_known :
      (kv : Kv) (key : ℕ) (kv' : Kv)
      → AreKnown hash_funcs kv.hashes kv.pool.num_clients
      → Reads hash_funcs kv kv' key
          (λ k. if key == k then none else view hash_funcs (shard_of hash_funcs kv key) k)
      → AreKnown hash_funcs kv'.hashes kv.pool.num_clients
  removed_known kv key kv' known reads =
      Reads-AreKnown hash_funcs kv kv' key _ kv.pool.num_clients known reads (λ k v e.
        elim (Bool-cases (key == k)) [
          | inl same ↦ absurd (ground (arith, e, same))
          | inr other ↦ inr (ground (arith, e, other))
        ])

  -- `Remove` hands over the page that it returns, if there is one.
  pub data Removes (kv : Kv) : ℕ × Kv → Type 0 where
    nothing :
        {r : ℕ × Kv}
        → r.0 ≡ no_value
        → Keeps hash_funcs all posted r.1.hashes r.1.pool hand
        → Removes kv r
    page :
        {r : ℕ × Kv}
        → r.0 ≢ no_value
        → Keeps hash_funcs all posted r.1.hashes r.1.pool (r.0 ∷ hand)
        → Removes kv r

  pub remove-Removes :
      (kv : Kv) (key cid : ℕ)
      → IsKey key
      → Keeps hash_funcs all posted kv.hashes kv.pool hand
      → Removes kv (Kv.remove hash_funcs kv key cid)
  remove-Removes kv key cid live keeps =
      let sh = get_ht_shard_id hash_funcs kv key in
      let r = remove-Removed hash_funcs kv key cid (keeps.tables.placed sh) live in
      elim (Option-cases (view hash_funcs (shard_of hash_funcs kv key) key)) [
        | inl e ↦ nothing (r.answer ∙ ap value_of e) (record {
          tables = Reads-AreTables hash_funcs kv _ key _ keeps.tables r.tables;
          pool = rw r.same_pool keeps.pool;
          known = rw r.same_pool (removed_known kv key _ keeps.known r.tables);
          owned = rw r.same_pool (
              same_entries all posted hand kv.pool.freelist _ _
                (Reads-entries hash_funcs kv _ key _ _ r.tables (λ k. ground (arith, e))
                  (λ s k other. refl))
                keeps.owned);
        })
        | inr (old, e) ↦
            let value = r.answer ∙ ap value_of e in
            let valued = Owned-Valued kv key kv.pool.freelist hand keeps.owned key live in
            page (λ z. valued (e ∙ ap some (sym value ∙ z)))
              (record {
                tables = Reads-AreTables hash_funcs kv _ key _ keeps.tables r.tables;
                pool = rw r.same_pool keeps.pool;
                known = rw r.same_pool (removed_known kv key _ keeps.known r.tables);
                owned =
                    rw (r.same_pool, value)
                      (same_entries all posted (old ∷ hand) kv.pool.freelist _ _
                        (Reads-entries hash_funcs kv _ key _ _ r.tables
                          (λ k. ground (arith, live.0, live.1)) (λ s k other. ground arith))
                        (unstore all posted hand kv.pool.freelist _ old keeps.owned sh key
                          (ground (arith, e, live.0, live.1))));
              })
      ]
