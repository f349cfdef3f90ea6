-- ===== src/Daemon/Pages/Pool.antt =====
-- What `Allocate` and `Free` do with the pages.
use cleancache_rdma.Prelude.{
  ap, ◌/◌, ℕ, ◌≤◌, ◌<◌, ◌≡◌, ◌≢◌, refl, subst, false, ◌==◌, List, ◌∷◌, Option, length, update,
  arith,
}
use cleancache_rdma.Prelude.Int.{pos, negsuc}
use cleancache_rdma.Daemon.LockFreeStack.{no_addr}
use cleancache_rdma.Daemon.PerCpuPool.{PerCpuPool, put_free_addr, fl_of}
use cleancache_rdma.Daemon.PerCpuPool
use cleancache_rdma.Daemon.PerCpuPool.Balance.{
  IsBalanced, free-IsBalanced, push_value-room, borrow-IsBalanced,
}
use cleancache_rdma.Daemon.PerCpuPool.Pages.{
  Allocated, exhausted, served, allocate-Allocated, Lent, nobody, lent, allocate_from_peer_takes,
}
use cleancache_rdma.Daemon.Kv.Shards.{freed}
use cleancache_rdma.Daemon.Pages.{Owned, count}
use cleancache_rdma.Daemon.Pages.Counts.{room, in_hand_page}
use cleancache_rdma.Daemon.Pages.Moves.{mk, Has, Has-first, take_free, release}

-- A pool whose accounts are right, and each of whose lists has room for all pages.
pub record IsPool (all : List ℕ) (pool : PerCpuPool) : Type 0 where
  pub balanced : IsBalanced pool
  pub queues : 0 < pool.per_cli_fl
  pub wide : length all ≤ pool.max_chunks

module _ (all posted hand : List ℕ) (stored : ℕ → ℕ → Option ℕ) (pool : PerCpuPool)
    (p : IsPool all pool) (o : Owned all (mk posted hand pool.freelist stored))
    (real : count no_addr all ≡ 0) where
  -- The page `x` goes from the hand to a free list.
  pub free_page :
      (x cid rand : ℕ) (left : List ℕ)
      → Has x hand left
      → IsPool all (freed pool x cid rand)
        × Owned all (mk posted left (freed pool x cid rand).freelist stored)
  unfolding PerCpuPool.free put_free_addr
  free_page x cid rand left has =
      let fl = fl_of pool cid (negsuc 0) rand in
      let roomy : length (pool.freelist fl) < pool.max_chunks =
        let r = room all (mk posted hand pool.freelist stored) x fl left has o in
        omega (arith, p.wide) in
      let page = in_hand_page all (mk posted hand pool.freelist stored) x no_addr left has o real in
      (
        record {
          balanced = free-IsBalanced pool x cid (negsuc 0) rand p.balanced page roomy;
          queues = p.queues;
          wide = p.wide;
        },
        rw (push_value-room pool.max_chunks x (pool.freelist fl) roomy)
            (release all posted hand pool.freelist stored x o fl left has),
      )

  -- What `Allocate` returned is in hand then, unless it is -1.
  pub data Handed : ℕ × PerCpuPool → Type 0 where
    handed_none :
        {r : ℕ × PerCpuPool}
        → r.0 ≡ no_addr
        → IsPool all r.1
        → r.1.num_clients ≡ pool.num_clients
        → Owned all (mk posted hand r.1.freelist stored)
        → Handed r
    handed_page :
        {r : ℕ × PerCpuPool}
        → r.0 ≢ no_addr
        → IsPool all r.1
        → r.1.num_clients ≡ pool.num_clients
        → Owned all (mk posted (r.0 ∷ hand) r.1.freelist stored)
        → Handed r

  Allocated-Handed :
      {first : ℕ} {r : ℕ × PerCpuPool} → Allocated pool first r → IsBalanced r.1 → Handed r
  Allocated-Handed exhausted b = handed_none refl p refl o
  Allocated-Handed (served fl a rest own top page) b =
      handed_page page (record { balanced = b; queues = p.queues; wide = p.wide }) refl
        (take_free all posted hand pool.freelist stored a o fl rest top)

  pub allocate_page : (cid rand : ℕ) → Handed (PerCpuPool.allocate pool cid (negsuc 0) rand)
  allocate_page cid rand =
      let r = allocate-Allocated pool cid (negsuc 0) rand p.balanced p.queues tt in
      Allocated-Handed r.0 r.1

  pub allocate_page_at :
      (cid qid rand : ℕ)
      → qid < pool.per_cli_fl
      → Handed (PerCpuPool.allocate pool cid (pos qid) rand)
  allocate_page_at cid qid rand own =
      let r = allocate-Allocated pool cid (pos qid) rand p.balanced p.queues own in
      Allocated-Handed r.0 r.1

  -- `AllocateFromPeer` takes a page from one free list to another, or does nothing.
  Lent-kept :
      {cur : ℕ} {r : ℕ × PerCpuPool}
      → Lent pool cur r
      → IsPool all r.1
        × Owned all (mk posted hand r.1.freelist stored)
        × (r.1.num_clients ≡ pool.num_clients)
  unfolding put_free_addr
  Lent-kept nobody = (p, o, refl)
  Lent-kept {cur} (lent peer a rest apart can top) =
      let o1 = take_free all posted hand pool.freelist stored a o peer rest top in
      let shorter = update pool.freelist peer rest in
      let distinct : peer ≢ cur = λ e. apart (ap (λ fl. fl / pool.per_cli_fl) e) in
      let far : (peer == cur) ≡ false = ground (arith, distinct) in
      let same : shorter cur ≡ pool.freelist cur = rw far refl in
      let below : length (shorter cur) < length all =
        room all (mk posted (a ∷ hand) shorter stored) a cur hand (Has-first a hand) o1 in
      let below' : length (pool.freelist cur) < length all =
        subst (λ (x : List ℕ). length x < length all) same below in
      (
        record {
          balanced =
              borrow-IsBalanced pool peer cur a rest top distinct (omega (arith, below', p.wide))
                p.balanced;
          queues = p.queues;
          wide = p.wide;
        },
        rw (push_value-room pool.max_chunks a (shorter cur) (omega (arith, below, p.wide)))
            (release all posted (a ∷ hand) shorter stored a o1 cur hand (Has-first a hand)),
        refl,
      )

  pub peer_page :
      (fl_id : ℕ)
      → IsPool all (PerCpuPool.allocate_from_peer pool fl_id).1
        × Owned all (mk posted hand (PerCpuPool.allocate_from_peer pool fl_id).1.freelist stored)
        × ((PerCpuPool.allocate_from_peer pool fl_id).1.num_clients ≡ pool.num_clients)
  peer_page fl_id = Lent-kept (allocate_from_peer_takes pool fl_id p.balanced p.queues)
