-- ===== src/Daemon/PerCpuPool/Balance.antt =====
-- The accounts of a free list agree with what stands on it.
use cleancache_rdma.Prelude.{
  ℕ, ◌*◌, ◌%◌, ◌^◌, ◌≤◌, ◌<◌, ◌≡◌, ◌≢◌, refl, sym, ap, subst, ◌∙◌, inl, inr, false, ==_iff, List,
  [], ◌∷◌, ◌==◌, Bool-cases, length, update, arith,
}
use mathlib.Core.Path.{fun_ext}
use cleancache_rdma.Prelude.Int.{ℤ}
use cleancache_rdma.Daemon.LockFreeStack.{no_addr}
use cleancache_rdma.Daemon.LockFreeStack.Refine.{push_value, pop_value}
use cleancache_rdma.Daemon.PerCpuPool.{
  PerCpuPool, slot_size, add_size, sub_size, put_free_addr, get_free_addr, add_used, borrow, fl_of,
  free,
}

-- no entry is -1
abbrev pub AllReal : List ℕ → Type 0
AllReal [] = Unit
AllReal (a ∷ rest) = (a ≢ no_addr) × AllReal rest

-- One list: what is allocated to it and not used is what stands on it, as `size_t` counts it.
pub record Fits (max_chunks alloc used : ℕ) (addrs : List ℕ) : Type 0 where
  pub alloc_word : alloc < 2 ^ 64
  pub used_word : used < 2 ^ 64
  pub free : sub_size alloc used ≡ slot_size * length addrs % 2 ^ 64
  pub real : AllReal addrs
  pub bounded : length addrs ≤ max_chunks

pub Fits-pop :
    (m alloc used a : ℕ) (rest : List ℕ)
    → Fits m alloc used (a ∷ rest)
    → Fits m alloc (add_size used slot_size) rest
Fits-pop m alloc used a rest f = record {
  alloc_word = f.alloc_word;
  used_word = omega arith;
  free = omega (arith, f.alloc_word, f.used_word, f.free);
  real = f.real.1;
  bounded = omega (arith, f.bounded);
}

pub Fits-push :
    (m alloc used a : ℕ) (rest : List ℕ)
    → a ≢ no_addr
    → length rest < m
    → Fits m alloc used rest
    → Fits m alloc (sub_size used slot_size) (a ∷ rest)
Fits-push m alloc used a rest real room f = record {
  alloc_word = f.alloc_word;
  used_word = omega arith;
  free = omega (arith, f.alloc_word, f.used_word, f.free);
  real = (real, f.real);
  bounded = room;
}

pub Fits-lend :
    (m alloc used a : ℕ) (rest : List ℕ)
    → Fits m alloc used (a ∷ rest)
    → Fits m (sub_size alloc slot_size) used rest
Fits-lend m alloc used a rest f = record {
  alloc_word = omega arith;
  used_word = f.used_word;
  free = omega (arith, f.alloc_word, f.used_word, f.free);
  real = f.real.1;
  bounded = omega (arith, f.bounded);
}

pub Fits-take_in :
    (m alloc used a : ℕ) (rest : List ℕ)
    → a ≢ no_addr
    → length rest < m
    → Fits m alloc used rest
    → Fits m (add_size alloc slot_size) used (a ∷ rest)
Fits-take_in m alloc used a rest real room f = record {
  alloc_word = omega arith;
  used_word = f.used_word;
  free = omega (arith, f.alloc_word, f.used_word, f.free);
  real = (real, f.real);
  bounded = room;
}

-- every free list of the pool
abbrev pub IsBalanced : PerCpuPool → Type 0
IsBalanced p = (fl : ℕ) → Fits p.max_chunks (p.allocs fl) (p.useds fl) (p.freelist fl)

-- What a `GetFreeAddr` finds: an empty list, or the address on top of one.
pub data Popped (p : PerCpuPool) (fl : ℕ) : Type 0 where
  nothing : p.freelist fl ≡ [] → Popped p fl
  page : (a : ℕ) (rest : List ℕ) → p.freelist fl ≡ a ∷ rest → Popped p fl

pub popped : (p : PerCpuPool) (fl : ℕ) → Popped p fl
popped p fl = go (p.freelist fl) refl
  where
    go : (l : List ℕ) → p.freelist fl ≡ l → Popped p fl
    go [] e = nothing e
    go (a ∷ rest) e = page a rest e

pub get_free_addr-nothing :
    (p : PerCpuPool) (fl : ℕ)
    → p.freelist fl ≡ []
    → get_free_addr p fl ≡ (no_addr, record p { freelist = update p.freelist fl [] })
unfolding get_free_addr pop_value
get_free_addr-nothing p fl e = ground arith

pub get_free_addr-page :
    (p : PerCpuPool) (fl a : ℕ) (rest : List ℕ)
    → p.freelist fl ≡ a ∷ rest
    → get_free_addr p fl ≡ (a, record p { freelist = update p.freelist fl rest })
unfolding get_free_addr pop_value
get_free_addr-page p fl a rest e = ground arith

-- Popping an empty list changes nothing.
pub update-nothing :
    (p : PerCpuPool) (fl : ℕ)
    → p.freelist fl ≡ []
    → record p { freelist = update p.freelist fl [] } ≡ p
update-nothing p fl e = let same = fun_ext (λ j. at j) in λ i. record p { freelist = same i }
  where
    at : (j : ℕ) → update p.freelist fl [] j ≡ p.freelist j
    at j = elim (Bool-cases (fl == j)) [
      | inl h ↦ rw h (sym (subst (λ x. p.freelist x ≡ []) ((==_iff fl j).0 h) e))
      | inr h ↦ rw h
    ]

pub get_free_addr-empty :
    (p : PerCpuPool) (fl : ℕ) → p.freelist fl ≡ [] → get_free_addr p fl ≡ (no_addr, p)
get_free_addr-empty p fl e =
    get_free_addr-nothing p fl e ∙ ap (λ (q : PerCpuPool). (no_addr, q)) (update-nothing p fl e)

pub used-IsBalanced :
    (p : PerCpuPool) (fl a : ℕ) (rest : List ℕ)
    → p.freelist fl ≡ a ∷ rest
    → IsBalanced p
    → IsBalanced (add_used (record p { freelist = update p.freelist fl rest }) fl)
used-IsBalanced p fl a rest e b j = elim (Bool-cases (fl == j)) [
  | inl h ↦
      let here = (==_iff fl j).0 h in
      rw (h, ← here)
        (Fits-pop p.max_chunks (p.allocs fl) (p.useds fl) a rest
          (subst (Fits p.max_chunks (p.allocs fl) (p.useds fl)) e (b fl)))
  | inr h ↦ rw h (b j)
]

pub push_value-room : (cap a : ℕ) (vs : List ℕ) → length vs < cap → (push_value cap vs a).1 ≡ a ∷ vs
unfolding push_value
push_value-room cap a vs h = ground arith

-- `Free` keeps every list's accounts, when the list that it pushes to has room.
pub free-IsBalanced :
    (p : PerCpuPool) (addr cid : ℕ) (qid : ℤ) (rand : ℕ)
    → IsBalanced p
    → addr ≢ no_addr
    → length (p.freelist (fl_of p cid qid rand)) < p.max_chunks
    → IsBalanced (free p addr cid qid rand)
unfolding free put_free_addr
free-IsBalanced p addr cid qid rand b real room j =
    let fl = fl_of p cid qid rand in
    elim (Bool-cases (fl == j)) [
      | inl h ↦
          let here = (==_iff fl j).0 h in
          rw (h, ← here, push_value-room p.max_chunks addr (p.freelist fl) room)
            (Fits-push p.max_chunks (p.allocs fl) (p.useds fl) addr (p.freelist fl) real room
              (b fl))
      | inr h ↦ rw h (b j)
    ]

pub borrow-IsBalanced :
    (p : PerCpuPool) (peer cur a : ℕ) (rest : List ℕ)
    → p.freelist peer ≡ a ∷ rest
    → peer ≢ cur
    → length (p.freelist cur) < p.max_chunks
    → IsBalanced p
    → IsBalanced (borrow (record p { freelist = update p.freelist peer rest }) peer cur a)
unfolding put_free_addr
borrow-IsBalanced p peer cur a rest e apart room b j =
    let far : (peer == cur) ≡ false = ground (arith, apart) in
    let lender = subst (Fits p.max_chunks (p.allocs peer) (p.useds peer)) e (b peer) in
    rw (far, push_value-room p.max_chunks a (p.freelist cur) room)
      (elim (Bool-cases (cur == j)) [
        | inl h ↦
            rw (h, ← (==_iff cur j).0 h)
              (Fits-take_in p.max_chunks (p.allocs cur) (p.useds cur) a (p.freelist cur)
                lender.real.0 room (b cur))
        | inr h ↦ rw h (elim (Bool-cases (peer == j)) [
          | inl h' ↦
              rw (h', ← (==_iff peer j).0 h')
                (Fits-lend p.max_chunks (p.allocs peer) (p.useds peer) a rest lender)
          | inr h' ↦ rw h' (b j)
        ])
      ])
