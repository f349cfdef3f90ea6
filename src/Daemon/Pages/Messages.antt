-- ===== src/Daemon/Pages/Messages.antt =====
-- The handlers of messages keep each page in one place.
use cleancache_rdma.Prelude.{
  ◌<◌, subst, ℕ, ◌-◌, ◌≡◌, inl, inr, refl, false, true, List, ◌∷◌, some, ◌==◌, arith, Bool-cases,
}
use cleancache_rdma.Prelude.Int.{negsuc}
use cleancache_rdma.Daemon.Pair.{invalid, no_value, ok}
use cleancache_rdma.Daemon.LockFreeStack.{no_addr}
use cleancache_rdma.Daemon.LinearProbing.Placed.{IsKey}
use cleancache_rdma.Daemon.PerCpuPool.{PerCpuPool}
use cleancache_rdma.Daemon.PerCpuPool
use cleancache_rdma.Daemon.Longkey.{longkey_to_cid}
use cleancache_rdma.Daemon.PerCpuPool.{put_free_addr}
use cleancache_rdma.Daemon.Kv.{Kv, get_ht_shard_id}
use cleancache_rdma.Daemon.Kv
use cleancache_rdma.Daemon.Handlers.{
  Server, Moment, process_put, process_get, process_invalidate_page, reply_put, post_recv, look_up,
  release,
}
use cleancache_rdma.Daemon.Handlers.Reads.{process_get-answers}
use cleancache_rdma.Daemon.Pages.{count, entries, pages}
use cleancache_rdma.Daemon.Pages.Counts.{in_hand_page}
use cleancache_rdma.Daemon.Pages.Moves.{mk, Has-first, post, same_entries, swap_hand}
use cleancache_rdma.Daemon.Pages.Pool.{handed_none, handed_page, free_page, allocate_page}
use cleancache_rdma.Daemon.Pages.Tables.{Keeps, Reads-AreTables, Reads-entries, Reads-AreKnown}
use cleancache_rdma.Daemon.Pages.Calls.{insert-Done, nothing, page, remove-Removes}

module _ (hash_funcs : ℕ → ℕ → ℕ) (all : List ℕ) (real : count no_addr all ≡ 0)
    (some_page : count no_value all ≡ 0) where
  -- A page that is posted again.
  post-Keeps :
      (kv : Kv) (posted hand : List ℕ) (x : ℕ)
      → Keeps hash_funcs all posted kv.hashes kv.pool (x ∷ hand)
      → Keeps hash_funcs all (x ∷ posted) kv.hashes kv.pool hand
  post-Keeps kv posted hand x k = record {
    tables = k.tables;
    pool = k.pool;
    known = k.known;
    owned = post all posted (x ∷ hand) kv.pool.freelist _ x k.owned hand (Has-first x hand);
  }

  free-Keeps :
      (kv : Kv) (posted hand : List ℕ) (x cid rand : ℕ)
      → Keeps hash_funcs all posted kv.hashes kv.pool (x ∷ hand)
      → Keeps hash_funcs all posted kv.hashes (Kv.free kv x cid rand).pool hand
  unfolding PerCpuPool.free put_free_addr
  free-Keeps kv posted hand x cid rand k =
      let f =
        free_page all posted (x ∷ hand) _ kv.pool k.pool k.owned real x cid rand hand
          (Has-first x hand) in
      record { tables = k.tables; pool = f.0; known = k.known; owned = f.1 }

  -- every page of the server, with those that are lost
  abbrev pub Kept : Server → List ℕ → Type 0
  Kept s lost = Keeps hash_funcs all (pages s.recvs) s.kv.hashes s.kv.pool lost

  -- A page in hand is posted.
  pub posts_page :
      (s : Server) (x : ℕ) (lost : List ℕ)
      → Keeps hash_funcs all (pages s.recvs) s.kv.hashes s.kv.pool (x ∷ lost)
      → Kept (post_recv s x) lost
  posts_page s x lost k =
      let page =
        in_hand_page all
          (mk (pages s.recvs) (x ∷ lost) s.kv.pool.freelist (entries hash_funcs s.kv.hashes)) x
          no_value lost (Has-first x lost) k.owned some_page in
      let kept : (x == no_value) ≡ false = ground (arith, page) in
      rw kept (post-Keeps s.kv (pages s.recvs) lost x k)

  module _ (htonl ntohl crc8 : ℕ → ℕ) where
    reply_put-Kept :
        (s : Server) (mid cpu : ℕ) (lost : List ℕ)
        → Kept s lost
        → Kept (reply_put hash_funcs htonl ntohl crc8 s mid cpu) lost
    unfolding reply_put
    reply_put-Kept s mid cpu lost k = elim (Bool-cases (mid == s.num_msgs - 1)) [
      | inl e ↦ rw e k
      | inr e ↦ rw e k
    ]

    pub invalidate-Kept :
        (s : Server) (cid mid key : ℕ) (m : Moment) (lost : List ℕ)
        → IsKey key
        → Kept s lost
        → Kept (process_invalidate_page hash_funcs htonl ntohl crc8 s cid mid key m) lost
    unfolding process_invalidate_page
    invalidate-Kept s cid mid key m lost live k =
        elim (remove-Removes hash_funcs all real some_page (pages s.recvs) lost s.kv key cid live
          k) [
            | nothing e k' ↦
                let none_found : ((Kv.remove hash_funcs s.kv key cid).0 == no_value) ≡ true =
                  ground (arith, e) in
                elim (Bool-cases (mid == s.num_msgs - 1)) [
                  | inl last ↦ rw (none_found, last) k'
                  | inr more ↦ rw (none_found, more) k'
                ]
            | page e k' ↦
                let found : ((Kv.remove hash_funcs s.kv key cid).0 == no_value) ≡ false =
                  ground (arith, e) in
                let freed_page =
                  free-Keeps (Kv.remove hash_funcs s.kv key cid).1 (pages s.recvs) lost
                    (Kv.remove hash_funcs s.kv key cid).0 cid m.draw k' in
                elim (Bool-cases (mid == s.num_msgs - 1)) [
                  | inl last ↦ rw (found, last) freed_page
                  | inr more ↦ rw (found, more) freed_page
                ]
          ]

    -- Without the exclusive policy, a get leaves the pool and the posted buffers.
    get_leaves :
        (s : Server) (cid mid key raddr : ℕ) (m : Moment)
        → s.exclusive_policy ≡ false
        → ((process_get hash_funcs htonl ntohl crc8 s cid mid key raddr m).kv.pool ≡ s.kv.pool)
          × ((process_get hash_funcs htonl ntohl crc8 s cid mid key raddr m).recvs ≡ s.recvs)
    unfolding process_get look_up release Kv.get_with_flag
    get_leaves s cid mid key raddr m e =
        elim (Bool-cases ((Kv.get_with_flag hash_funcs s.kv key true m.now).0 == no_value)) [
          | inl z ↦ rw (e, z) (refl, refl)
          | inr z ↦ rw (e, z) (refl, refl)
        ]

    shared :
        (s : Server) (cid mid key raddr : ℕ) (m : Moment) (lost : List ℕ)
        → IsKey key
        → Kept s lost
        → s.exclusive_policy ≡ false
        → Kept (process_get hash_funcs htonl ntohl crc8 s cid mid key raddr m) lost
    shared s cid mid key raddr m lost live k ex =
        let sh = get_ht_shard_id hash_funcs s.kv key in
        let r =
          (process_get-answers hash_funcs htonl ntohl crc8 s cid mid key raddr m
            (k.tables.placed sh) live).1 in
        let same = get_leaves s cid mid key raddr m ex in
        record {
          tables = Reads-AreTables hash_funcs s.kv _ key _ k.tables r;
          pool = rw same.0 k.pool;
          known = rw same.0 (
              Reads-AreKnown hash_funcs s.kv _ key _ s.kv.pool.num_clients k.known r
                (λ j v e. inr (subst (λ x. x ≡ some v) (rw ex refl) e)));
          owned =
              rw (same.0, same.1)
                (same_entries all (pages s.recvs) lost s.kv.pool.freelist _ _
                  (Reads-entries hash_funcs s.kv _ key _ _ r (λ j. rw ex refl) (λ t j other. refl))
                  k.owned);
        }

    pub get-Kept :
        (s : Server) (cid mid key raddr : ℕ) (m : Moment) (lost : List ℕ)
        → IsKey key
        → Kept s lost
        → Kept (process_get hash_funcs htonl ntohl crc8 s cid mid key raddr m) lost
    unfolding process_get look_up release
    get-Kept s cid mid key raddr m lost live k = elim (Bool-cases s.exclusive_policy) [
      | inl ex ↦
          elim (remove-Removes hash_funcs all real some_page (pages s.recvs) lost s.kv key cid live
            k) [
              | nothing e k' ↦
                  let none_found : ((Kv.remove hash_funcs s.kv key cid).0 == no_value) ≡ true =
                    ground (arith, e) in
                  rw (ex, none_found) k'
              | page e k' ↦
                  let found : ((Kv.remove hash_funcs s.kv key cid).0 == no_value) ≡ false =
                    ground (arith, e) in
                  rw (ex, found)
                    (free-Keeps (Kv.remove hash_funcs s.kv key cid).1 (pages s.recvs) lost
                      (Kv.remove hash_funcs s.kv key cid).0 cid m.draw k')
            ]
      | inr ex ↦ shared s cid mid key raddr m lost live k ex
    ]

    -- `recv_addr` is in hand: its buffer is no longer posted.
    pub put-Kept :
        (s : Server) (cid mid recv_addr key : ℕ) (m : Moment) (lost : List ℕ)
        → IsKey key
        → longkey_to_cid key < s.kv.pool.num_clients
        → Keeps hash_funcs all (pages s.recvs) s.kv.hashes s.kv.pool (recv_addr ∷ lost)
        → (s' : Server) × (process_put hash_funcs htonl ntohl crc8 s cid mid recv_addr key m
            ≡ some (ok s'))
          × Kept s' lost
    unfolding process_put Kv.allocate
    put-Kept s cid mid recv_addr key m lost live own k =
        elim (allocate_page all (pages s.recvs) (recv_addr ∷ lost) (entries hash_funcs s.kv.hashes)
          s.kv.pool k.pool k.owned real cid m.draw) [
            | handed_none e p c o ↦
                let none_left : ((PerCpuPool.allocate s.kv.pool cid (negsuc 0) m.draw).0 == invalid)
                    ≡ true =
                  ground (arith, e) in
                rw none_left (
                  _,
                  refl,
                  reply_put-Kept _ mid m.cpu_usage lost (
                      posts_page
                        (record s {
                          kv = record s.kv {
                            pool = (PerCpuPool.allocate s.kv.pool cid (negsuc 0) m.draw).1;
                          };
                        })
                        recv_addr lost
                        (record { tables = k.tables; pool = p; known = rw c k.known; owned = o })),
                )
            | handed_page e p c o ↦
                let given : ((PerCpuPool.allocate s.kv.pool cid (negsuc 0) m.draw).0 == invalid)
                    ≡ false =
                  ground (arith, e) in
                let a = (PerCpuPool.allocate s.kv.pool cid (negsuc 0) m.draw).0 in
                let kv = record s.kv {
                  pool = (PerCpuPool.allocate s.kv.pool cid (negsuc 0) m.draw).1;
                } in
                let (kv', returned, k') =
                  insert-Done hash_funcs all real some_page (pages s.recvs) (a ∷ lost) kv key
                    recv_addr cid m.rand m.now m.try_lock live (rw c own)
                    (record {
                      tables = k.tables;
                      pool = p;
                      known = rw c k.known;
                      owned = swap_hand all (pages s.recvs) lost _ _ a recv_addr o;
                    }) in
                rw (given, returned)
                  (
                    _,
                    refl,
                    reply_put-Kept _ mid m.cpu_usage lost
                        (posts_page (record s { kv = kv' }) a lost k'),
                  )
          ]
