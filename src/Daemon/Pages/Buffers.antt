-- ===== src/Daemon/Pages/Buffers.antt =====
-- The buffers that are posted to receive, and what becomes of the page of one that is used up.
use cleancache_rdma.Prelude.{
  ◌<◌, ℕ, ◌≡◌, ◌≢◌, inl, inr, refl, false, ap, subst, List, ◌∷◌, ◌==◌, if◌then◌else◌, arith,
  Bool-cases, ==_iff,
}
use cleancache_rdma.Daemon.Pair.{no_value}
use cleancache_rdma.Daemon.LockFreeStack.{no_addr}
use cleancache_rdma.Daemon.Longkey.{longkey_to_cid}
use cleancache_rdma.Daemon.LinearProbing.Placed.{IsKey}
use cleancache_rdma.Daemon.Handlers.{Server}
use cleancache_rdma.Daemon.Pages.{count, pages}
use cleancache_rdma.Daemon.Pages.Moves.{Has, unpost}
use cleancache_rdma.Daemon.Pages.Tables.{Keeps}
use cleancache_rdma.Daemon.Pages.Messages.{Kept}

-- a buffer is taken out of those that are posted
pub data Uses (x : ℕ) : List ℕ → List ℕ → Type 0 where
  newest : {rest : List ℕ} → Uses x (x ∷ rest) rest
  older : {y : ℕ} {ys rest : List ℕ} → Uses x ys rest → Uses x (y ∷ ys) (y ∷ rest)

Uses-Has :
    {x : ℕ} {xs rest : List ℕ} → x ≢ no_value → Uses x xs rest → Has x (pages xs) (pages rest)
Uses-Has {x} page newest a =
    let kept : (x == no_value) ≡ false = ground (arith, page) in rw kept refl
Uses-Has {x} page (older {y} u) a = elim (Bool-cases (y == no_value)) [
  | inl e ↦ rw e (Uses-Has page u a)
  | inr e ↦ rw e (omega (arith, Uses-Has page u a))
]

Uses-none : {xs rest : List ℕ} → Uses no_value xs rest → pages rest ≡ pages xs
Uses-none newest = refl
Uses-none (older {y} u) = elim (Bool-cases (y == no_value)) [
  | inl e ↦ rw e (Uses-none u)
  | inr e ↦ rw e (ap (λ (l : List ℕ). y ∷ l) (Uses-none u))
]

abbrev pub with_recvs : Server → List ℕ → Server
with_recvs s recvs = record s { recvs = recvs }

-- a key that marks no empty pair, of a client that there is
abbrev pub IsClientKey : Server → ℕ → Type 0
IsClientKey s key = IsKey key × (longkey_to_cid key < s.kv.pool.num_clients)

-- the page of a buffer that a request used up, which no handler has
abbrev pub add_lost : ℕ → List ℕ → List ℕ
add_lost wr_id lost = if wr_id == no_value then lost else wr_id ∷ lost

module _ (hash_funcs : ℕ → ℕ → ℕ) (all : List ℕ) (real : count no_addr all ≡ 0)
    (some_page : count no_value all ≡ 0) where
  -- The buffer of a completion is in hand, if it is a page.
  pub Uses-Kept :
      (s : Server) (lost : List ℕ) (x : ℕ) (rest : List ℕ)
      → x ≢ no_value
      → Uses x s.recvs rest
      → Kept hash_funcs all real some_page s lost
      → Keeps hash_funcs all (pages rest) s.kv.hashes s.kv.pool (x ∷ lost)
  Uses-Kept s lost x rest page u k = record {
    tables = k.tables;
    pool = k.pool;
    known = k.known;
    owned =
        unpost all (pages s.recvs) lost s.kv.pool.freelist _ x k.owned (pages rest)
          (Uses-Has page u);
  }

  pub none_Kept :
      (s : Server) (lost : List ℕ) (rest : List ℕ)
      → Uses no_value s.recvs rest
      → Kept hash_funcs all real some_page s lost
      → Kept hash_funcs all real some_page (with_recvs s rest) lost
  none_Kept s lost rest u k = rw (Uses-none u) k

  -- the server with the buffer of a request used up
  pub used_Kept :
      (s : Server) (lost : List ℕ) (x : ℕ) (rest : List ℕ)
      → Uses x s.recvs rest
      → Kept hash_funcs all real some_page s lost
      → Kept hash_funcs all real some_page (with_recvs s rest) (add_lost x lost)
  used_Kept s lost x rest u k = elim (Bool-cases (x == no_value)) [
    | inl e ↦
        rw e
          (none_Kept s lost rest (subst (λ y. Uses y s.recvs rest) ((==_iff x no_value).0 e) u) k)
    | inr e ↦ rw e (Uses-Kept s lost x rest (ground arith) u k)
  ]
