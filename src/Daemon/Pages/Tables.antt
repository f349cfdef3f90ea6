-- ===== src/Daemon/Pages/Tables.antt =====
-- What `Insert` and `Remove` of KV do with the pages that the tables store.
use cleancache_rdma.Prelude.{
  sym, ◌⊎◌, ℕ, ◌<◌, ◌≡◌, inl, inr, refl, false, ◌∙◌, subst, List, ◌∷◌, Option, none, some, Array,
  ◌==◌, ◌||◌, if◌then◌else◌, arith, Bool-cases, ==_iff,
}
use cleancache_rdma.Daemon.Pair.{invalid, tombstone, Run, ok}
use cleancache_rdma.Daemon.Longkey.{longkey_to_cid}
use cleancache_rdma.Daemon.LockFreeStack.{no_addr}
use cleancache_rdma.Daemon.LinearProbing.{LinearProbing, max_probing_len}
use cleancache_rdma.Daemon.LinearProbing.Placed.{IsKey, IsPlaced}
use cleancache_rdma.Daemon.LinearProbing.View.{view}
use cleancache_rdma.Daemon.PerCpuPool.{PerCpuPool, put_free_addr}
use cleancache_rdma.Daemon.PerCpuPool
use cleancache_rdma.Daemon.Kv.{Kv, get_ht_shard_id}
use cleancache_rdma.Daemon.Kv.Shards.{shard_of, freed, Reads}
use cleancache_rdma.Daemon.Kv.Update.{Settled, put, displaced, turned_away}
use cleancache_rdma.Daemon.Pages.{Owned, count, entries, put_entry}
use cleancache_rdma.Daemon.Pages.Moves.{mk, Has-first, store, unstore, same_entries}
use cleancache_rdma.Daemon.Pages.Pool.{IsPool, free_page}

module _ (hash_funcs : ℕ → ℕ → ℕ) where
  -- every shard
  pub record AreTables (hashes : Array LinearProbing) : Type 0 where
    pub placed : (s : ℕ) → IsPlaced hash_funcs (hashes s)
    pub large : (s : ℕ) → max_probing_len < (hashes s).capacity

  pub Reads-AreTables :
      (kv kv' : Kv) (key : ℕ) (left : ℕ → Option ℕ)
      → AreTables kv.hashes
      → Reads hash_funcs kv kv' key left
      → AreTables kv'.hashes
  Reads-AreTables kv kv' key left t r =
      let sh = get_ht_shard_id hash_funcs kv key in
      record {
        placed = λ s. elim (Bool-cases (sh == s)) [
          | inl e ↦ subst (λ x. IsPlaced hash_funcs (kv'.hashes x)) ((==_iff sh s).0 e) r.placed
          | inr e ↦ rw (r.others s (ground arith)) (t.placed s)
        ];
        large = λ s. elim (Bool-cases (sh == s)) [
          | inl e ↦
              subst (λ x. max_probing_len < (kv'.hashes x).capacity) ((==_iff sh s).0 e)
                (rw r.same_capacity (t.large sh))
          | inr e ↦ rw (r.others s (ground arith)) (t.large s)
        ];
      }

  -- the entries of one shard
  abbrev marked : ℕ → Option ℕ → Option ℕ
  marked k o = if k == invalid || k == tombstone then none else o

  marked-IsKey : (k : ℕ) (a b : Option ℕ) → (IsKey k → a ≡ b) → marked k a ≡ marked k b
  marked-IsKey k a b h = elim (Bool-cases (k == invalid || k == tombstone)) [
    | inl e ↦ rw e refl
    | inr e ↦ rw e (h (ground arith, ground arith))
  ]

  -- The entries after a call, given those of the key's shard.
  pub Reads-entries :
      (kv kv' : Kv) (key : ℕ) (left : ℕ → Option ℕ) (after : ℕ → ℕ → Option ℕ)
      → Reads hash_funcs kv kv' key left
      → ((k : ℕ) → marked k (left k) ≡ after (get_ht_shard_id hash_funcs kv key) k)
      → ((s k : ℕ)
          → (get_ht_shard_id hash_funcs kv key == s) ≡ false
          → entries hash_funcs kv.hashes s k ≡ after s k)
      → (s k : ℕ) → entries hash_funcs kv'.hashes s k ≡ after s k
  Reads-entries kv kv' key left after r here away s k =
      let sh = get_ht_shard_id hash_funcs kv key in
      elim (Bool-cases (sh == s)) [
        | inl e ↦
            subst (λ x. entries hash_funcs kv'.hashes x k ≡ after x k) ((==_iff sh s).0 e)
              (marked-IsKey k _ _ (r.reads k) ∙ here k)
        | inr e ↦ rw (r.others s (ground arith)) (away s k e)
      ]

  -- Every stored key is one of a client that there is.
  abbrev pub AreKnown : Array LinearProbing → ℕ → Type 0
  AreKnown hashes num_clients =
      (s k v : ℕ) → entries hash_funcs hashes s k ≡ some v → longkey_to_cid k < num_clients

  -- The entries after a call are of such clients, or stood there before.
  pub Reads-AreKnown :
      (kv kv' : Kv) (key : ℕ) (left : ℕ → Option ℕ) (n : ℕ)
      → AreKnown kv.hashes n
      → Reads hash_funcs kv kv' key left
      → ((k v : ℕ)
          → left k ≡ some v
          → (longkey_to_cid k < n) ⊎ (view hash_funcs (shard_of hash_funcs kv key) k ≡ some v))
      → AreKnown kv'.hashes n
  Reads-AreKnown kv kv' key left n known r from s k v e =
      let sh = get_ht_shard_id hash_funcs kv key in
      elim (Bool-cases (k == invalid || k == tombstone)) [
        | inl m ↦ absurd (ground (arith, e, m))
        | inr m ↦ elim (Bool-cases (sh == s)) [
          | inl here ↦
              let there : entries hash_funcs kv'.hashes sh k ≡ some v =
                subst (λ x. entries hash_funcs kv'.hashes x k ≡ some v) (sym ((==_iff sh s).0 here))
                  e in
              let seen : left k ≡ some v = ground (arith, there, r.reads k, m) in
              elim (from k v seen) [
                | inl client ↦ client
                | inr before ↦ known sh k v (ground (arith, before, m))
              ]
          | inr away ↦ known s k v (
              subst
                (λ t.
                  (if k == invalid || k == tombstone then none else view hash_funcs t k) ≡ some v)
                (r.others s (ground arith)) e)
        ]
      ]

  -- the entries without the key
  abbrev pub cleared : Kv → ℕ → ℕ → ℕ → Option ℕ
  cleared kv key =
      put_entry (entries hash_funcs kv.hashes) (get_ht_shard_id hash_funcs kv key) key none

  module _ (all posted : List ℕ) where
    -- the store with its pages
    pub record Keeps (hashes : Array LinearProbing) (free_pages : PerCpuPool) (hand : List ℕ)
        : Type 0 where
      pub tables : AreTables hashes
      pub pool : IsPool all free_pages
      pub known : AreKnown hashes free_pages.num_clients
      pub owned : Owned all (mk posted hand free_pages.freelist (entries hash_funcs hashes))

    -- `Insert` has returned a store.
    abbrev pub Done : Option (Run Kv) → List ℕ → Type 0
    Done r hand = (kv' : Kv) × (r ≡ some (ok kv')) × Keeps kv'.hashes kv'.pool hand

  module _ (all posted hand : List ℕ) (real : count no_addr all ≡ 0) where
    -- `Insert`, once the old page of the key is out of the way: the new page goes from the hand to the
    -- table, or to a free list.
    pub Settled-Done :
        (kv : Kv) (pool : PerCpuPool) (key value cid : ℕ) {r : Option (Run Kv)}
        → AreTables kv.hashes
        → IsKey key
        → AreKnown kv.hashes pool.num_clients
        → longkey_to_cid key < pool.num_clients
        → IsPool all pool
        → Owned all (mk posted (value ∷ hand) pool.freelist (cleared kv key))
        → Settled hash_funcs kv pool key value cid r
        → Done all posted r hand
    unfolding PerCpuPool.free put_free_addr
    Settled-Done kv pool key value cid t live known own p o (put {kv'} reads same_pool filters) =
        let sh = get_ht_shard_id hash_funcs kv key in
        let o' =
          store all posted (value ∷ hand) pool.freelist (cleared kv key) value o sh key hand
            (Has-first value hand) (ground arith) in
        (
          kv',
          refl,
          record {
            tables = Reads-AreTables kv kv' key _ t reads;
            pool = rw same_pool p;
            known = rw same_pool (
                Reads-AreKnown kv kv' key _ pool.num_clients known reads (λ k v e.
                  elim (Bool-cases (key == k)) [
                    | inl same ↦ inl (
                        subst (λ x. longkey_to_cid x < pool.num_clients) ((==_iff key k).0 same)
                          own)
                    | inr other ↦ inr (ground (arith, e, other))
                  ]));
            owned = rw same_pool (
                same_entries all posted hand pool.freelist _ _
                  (Reads-entries kv kv' key _ _ reads (λ k. ground (arith, live.0, live.1))
                    (λ s k e. ground arith))
                  o');
          },
        )
    Settled-Done kv pool key value cid t live known own p o
          (displaced {kv'} victim old rand k ne at reads same_pool filters) =
        let sh = get_ht_shard_id hash_funcs kv key in
        let o1 =
          unstore all posted (value ∷ hand) pool.freelist (cleared kv key) old o sh victim
            (ground (arith, at, ne, k.0, k.1)) in
        let fr =
          free_page all posted (old ∷ value ∷ hand) _ pool p o1 real old (longkey_to_cid victim)
            rand (value ∷ hand) (Has-first old (value ∷ hand)) in
        let o' =
          store all posted (value ∷ hand) (freed pool old (longkey_to_cid victim) rand).freelist _
            value fr.1 sh key hand (Has-first value hand) (ground arith) in
        (
          kv',
          refl,
          record {
            tables = Reads-AreTables kv kv' key _ t reads;
            pool = rw same_pool fr.0;
            known = rw same_pool (
                Reads-AreKnown kv kv' key _ pool.num_clients known reads (λ k v e.
                  elim (Bool-cases (key == k)) [
                    | inl same ↦ inl (
                        subst (λ x. longkey_to_cid x < pool.num_clients) ((==_iff key k).0 same)
                          own)
                    | inr other ↦ elim (Bool-cases (victim == k)) [
                      | inl out ↦ absurd (ground (arith, e, other, out))
                      | inr in_place ↦ inr (ground (arith, e, other, in_place))
                    ]
                  ]));
            owned = rw same_pool (
                same_entries all posted hand _ _ _
                  (Reads-entries kv kv' key _ _ reads
                    (λ j. ground (arith, live.0, live.1, k.0, k.1, ne)) (λ s j e. ground arith))
                  o');
          },
        )
    Settled-Done kv pool key value cid t live known own p o
          (turned_away {kv'} rand reads same_pool filters) =
        let fr =
          free_page all posted (value ∷ hand) _ pool p o real value (longkey_to_cid key) rand hand
            (Has-first value hand) in
        (
          kv',
          refl,
          record {
            tables = Reads-AreTables kv kv' key _ t reads;
            pool = rw same_pool fr.0;
            known = rw same_pool (
                Reads-AreKnown kv kv' key _ pool.num_clients known reads (λ k v e.
                  elim (Bool-cases (key == k)) [
                    | inl same ↦ absurd (ground (arith, e, same))
                    | inr other ↦ inr (ground (arith, e, other))
                  ]));
            owned = rw same_pool (
                same_entries all posted hand _ _ _
                  (Reads-entries kv kv' key _ _ reads (λ j. ground (arith, live.0, live.1))
                    (λ s j e. ground arith))
                  fr.1);
          },
        )
