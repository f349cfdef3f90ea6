-- ===== src/Daemon/PerCpuPool/Pages.antt =====
-- Where the pages go that `Allocate` and `AllocateFromPeer` take from a list.
use cleancache_rdma.Prelude.{
  ◌∙◌, ap, sym, ℕ, zero, suc, ◌+◌, ◌*◌, ◌/◌, ◌%◌, ◌≤◌, ◌<◌, ◌≡◌, ◌≢◌, subst, false, ◌&&◌, List, ◌∷◌,
  ltb, ◌==◌, Bool-cases, inl, inr, length, update, arith,
}
use cleancache_rdma.Prelude.Int.{ℤ}
use cleancache_rdma.Daemon.LockFreeStack.{no_addr}
use cleancache_rdma.Daemon.PerCpuPool.{
  PerCpuPool, add_used, get_free, megabytes, borrow, borrow_from, allocate_from_peer, next_fl,
  num_iter, allocate_from, allocate, fl_of, select_by_free_mem,
}
use cleancache_rdma.Daemon.PerCpuPool.Balance.{
  Fits, IsBalanced, nothing, page, popped, get_free_addr-page, get_free_addr-empty, used-IsBalanced,
  borrow-IsBalanced,
}

-- `fl` is one of the lists of a client whose lists start at `first`
abbrev pub Owns : PerCpuPool → ℕ → ℕ → Type 0
Owns p first fl = (first ≤ fl) × (fl < first + p.per_cli_fl)

next_fl-Owns : (p : PerCpuPool) (first fl : ℕ) → Owns p first fl → Owns p first (next_fl p first fl)
next_fl-Owns p first fl o = ground arith

-- a queue of a client, or any (-1)
abbrev pub IsQueue : PerCpuPool → ℤ → Type 0
IsQueue p (ℤ.pos qid) = qid < p.per_cli_fl
IsQueue p (ℤ.negsuc n) = Unit

-- the pool with the page on top of `fl` taken off
abbrev pub without_top : PerCpuPool → ℕ → List ℕ → PerCpuPool
without_top p fl rest = record p { freelist = update p.freelist fl rest }

-- The ways that `Allocate` ends.
pub data Allocated (p : PerCpuPool) (first : ℕ) : ℕ × PerCpuPool → Type 0 where
  exhausted : Allocated p first (no_addr, p)
  served :
      (fl a : ℕ) (rest : List ℕ)
      → Owns p first fl
      → p.freelist fl ≡ a ∷ rest
      → a ≢ no_addr
      → Allocated p first (a, add_used (without_top p fl rest) fl)

pub allocate_from-Allocated :
    (n : ℕ) (p : PerCpuPool) (first fl : ℕ)
    → IsBalanced p
    → Owns p first fl
    → Allocated p first (allocate_from n p first fl)
unfolding allocate_from
allocate_from-Allocated zero p first fl b o = exhausted
allocate_from-Allocated (suc n) p first fl b o = elim (popped p fl) [
  | nothing e ↦
      rw (get_free_addr-empty p fl e)
        (allocate_from-Allocated n p first (next_fl p first fl) b (next_fl-Owns p first fl o))
  | page a rest e ↦
      let at = subst (Fits p.max_chunks (p.allocs fl) (p.useds fl)) e (b fl) in
      let real : (a == no_addr) ≡ false = ground (arith, at.real.0) in
      rw (get_free_addr-page p fl a rest e, real) (served fl a rest o e at.real.0)
]

Allocated-IsBalanced :
    {p : PerCpuPool} {first : ℕ} {r : ℕ × PerCpuPool}
    → IsBalanced p
    → Allocated p first r
    → IsBalanced r.1
Allocated-IsBalanced b exhausted = b
Allocated-IsBalanced {p} b (served fl a rest o e real) = used-IsBalanced p fl a rest e b

fl_of-Owns :
    (p : PerCpuPool) (cid : ℕ) (qid : ℤ) (rand : ℕ)
    → 0 < p.per_cli_fl
    → IsQueue p qid
    → Owns p (cid * p.per_cli_fl) (fl_of p cid qid rand)
fl_of-Owns p cid (ℤ.pos qid) rand h q = omega arith
fl_of-Owns p cid (ℤ.negsuc n) rand h q = grind arith

-- `Allocate` for a client takes the page on top of one of the client's own lists and counts it as
-- used there, or returns -1 and changes nothing; every list's accounts still agree with it.
pub allocate-Allocated :
    (p : PerCpuPool) (cid : ℕ) (qid : ℤ) (rand : ℕ)
    → IsBalanced p
    → 0 < p.per_cli_fl
    → IsQueue p qid
    → Allocated p (cid * p.per_cli_fl) (allocate p cid qid rand)
      × IsBalanced (allocate p cid qid rand).1
unfolding allocate
allocate-Allocated p cid qid rand b h q =
    let r =
      allocate_from-Allocated (num_iter p) p (cid * p.per_cli_fl) (fl_of p cid qid rand) b
        (fl_of-Owns p cid qid rand h q) in
    (r, Allocated-IsBalanced b r)

-- A list has more than the least allocation and the least free memory, in megabytes.
pub record CanLend (p : PerCpuPool) (fl : ℕ) : Type 0 where
  pub allocated : megabytes p.min_fl_alloc < megabytes (p.allocs fl)
  pub unused : megabytes p.min_fl_free < megabytes (get_free p fl)

-- The ways that `AllocateFromPeer` ends.
pub data Lent (p : PerCpuPool) (cur : ℕ) : ℕ × PerCpuPool → Type 0 where
  nobody : Lent p cur (no_addr, p)
  lent :
      (peer a : ℕ) (rest : List ℕ)
      → peer / p.per_cli_fl ≢ cur / p.per_cli_fl
      → CanLend p peer
      → p.freelist peer ≡ a ∷ rest
      → Lent p cur (a, borrow (without_top p peer rest) peer cur a)

Lent-IsBalanced :
    {p : PerCpuPool} {cur : ℕ} {r : ℕ × PerCpuPool}
    → IsBalanced p
    → length (p.freelist cur) < p.max_chunks
    → Lent p cur r
    → IsBalanced r.1
Lent-IsBalanced b room nobody = b
Lent-IsBalanced {p} {cur} b room (lent peer a rest apart can top) =
    borrow-IsBalanced p peer cur a rest top (λ e. apart (ap (λ fl. fl / p.per_cli_fl) e)) room b

-- the client of a list
client_of :
    (fl next per : ℕ) → 0 < per → (next * per ≤ fl) × (fl < next * per + per) → fl / per ≡ next
client_of fl next per h o = grind arith

borrow_from-Lent :
    (n : ℕ) (p : PerCpuPool) (next peer cur : ℕ)
    → IsBalanced p
    → 0 < p.per_cli_fl
    → Owns p (next * p.per_cli_fl) peer
    → cur / p.per_cli_fl ≢ next
    → Lent p cur (borrow_from n p (next * p.per_cli_fl) peer cur)
unfolding borrow_from
borrow_from-Lent zero p next peer cur b h o away = nobody
borrow_from-Lent (suc n) p next peer cur b h o away =
    let first = next * p.per_cli_fl in
    let alloc_cond = ltb (megabytes p.min_fl_alloc) (megabytes (p.allocs peer)) in
    let free_cond = ltb (megabytes p.min_fl_free) (megabytes (get_free p peer)) in
    elim (Bool-cases (alloc_cond && free_cond)) [
      | inr e ↦ rw e (borrow_from-Lent n p next peer cur b h o away)
      | inl e ↦ rw e (elim (popped p peer) [
        | nothing none_left ↦ rw (get_free_addr-empty p peer none_left) (
            borrow_from-Lent n p next (next_fl p first peer) cur b h (next_fl-Owns p first peer o)
              away)
        | page a rest top ↦
            let at = subst (Fits p.max_chunks (p.allocs peer) (p.useds peer)) top (b peer) in
            let real : (a == no_addr) ≡ false = ground (arith, at.real.0) in
            rw (get_free_addr-page p peer a rest top, real)
              (lent peer a rest (λ same. away (sym same ∙ client_of peer next p.per_cli_fl h o))
                (record { allocated = ground arith; unused = ground arith }) top)
      ])
    ]

-- The page that `AllocateFromPeer` takes, whether or not `fl_id` has room.
pub allocate_from_peer_takes :
    (p : PerCpuPool) (fl_id : ℕ)
    → IsBalanced p
    → 0 < p.per_cli_fl
    → Lent p fl_id (allocate_from_peer p fl_id)
unfolding allocate_from_peer
allocate_from_peer_takes p fl_id b h =
    let cur = fl_id / p.per_cli_fl in
    let next = select_by_free_mem p cur in
    elim (Bool-cases (cur == next)) [
      | inl e ↦ rw e nobody
      | inr e ↦ rw e (
          borrow_from-Lent (num_iter p) p next (next * p.per_cli_fl + fl_id % p.per_cli_fl) fl_id b
            h (grind arith) (ground arith))
    ]

-- `AllocateFromPeer` moves the page on top of a list of another client, which has more than the
-- least allocation and the least free memory, to the list `fl_id` with its accounts; or it returns
-- -1 and changes nothing. With room on `fl_id` every list's accounts still agree with it.
pub allocate_from_peer-Lent :
    (p : PerCpuPool) (fl_id : ℕ)
    → IsBalanced p
    → 0 < p.per_cli_fl
    → length (p.freelist fl_id) < p.max_chunks
    → Lent p fl_id (allocate_from_peer p fl_id) × IsBalanced (allocate_from_peer p fl_id).1
allocate_from_peer-Lent p fl_id b h room =
    let r = allocate_from_peer_takes p fl_id b h in (r, Lent-IsBalanced b room r)
