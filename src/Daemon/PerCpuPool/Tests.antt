-- ===== src/Daemon/PerCpuPool/Tests.antt =====
-- Runs of the pool, and its theorems at concrete inputs.
use cleancache_rdma.Prelude.{
  ℕ, zero, suc, ◌*◌, ◌/◌, ◌≤◌, Bool-cases, inl, inr, ◌≡◌, refl, Bool, true, List, [], ◌∷◌,
  if◌then◌else◌, length, ◌==◌, Array, ltb, arith,
}
use cleancache_rdma.Prelude.Int.{pos, negsuc}
use cleancache_rdma.Daemon.LockFreeStack.{no_addr}
use cleancache_rdma.Daemon.LockFreeStack.Refine.{push_value, pop_value}
use cleancache_rdma.Daemon.PerCpuPool.{
  PerCpuPool, slot_size, put_free_addr, get_free_addr, fill_list, fill_lists, new, get_thld_free,
  sum_from, get_client_alloc, get_client_used, get_free, get_client_free, select_from,
  select_by_free_mem, greedy_from, select_by_greedy, borrow_from, allocate_from_peer, allocate_from,
  allocate, free,
}
use cleancache_rdma.Daemon.PerCpuPool.Balance.{AllReal, Fits, IsBalanced, free-IsBalanced}
use cleancache_rdma.Daemon.PerCpuPool.Pages.{
  Allocated, Lent, allocate-Allocated, allocate_from_peer-Lent,
}

program : Bool
unfolding push_value pop_value put_free_addr get_free_addr fill_list fill_lists new get_thld_free
    sum_from get_client_alloc get_client_used get_free get_client_free select_from
    select_by_free_mem greedy_from select_by_greedy borrow_from allocate_from_peer allocate_from
    allocate free
program = true

-- two clients of one list each, two pages a list
abbrev small : PerCpuPool
small = new 2 1 (4 * slot_size) 100000

runs :
    (small.freelist 0 ≡ 100000 ∷ 104104 ∷ [])
    × (small.freelist 1 ≡ 108208 ∷ 112312 ∷ [])
    × ((allocate small 1 (pos 0) 7).0 ≡ 108208)
    × (get_free (allocate small 1 (negsuc 0) 7).1 1 ≡ slot_size)
    × (get_free (free (allocate small 1 (pos 0) 7).1 108208 0 (pos 0) 7) 0 ≡ 3 * slot_size)
    × ((allocate_from_peer small 0).0 ≡ no_addr)
    × (select_by_greedy small 0 ≡ 0)
unfolding program
runs = (refl, refl, refl, refl, refl, refl, refl)

-- `n` pages
abbrev stock : ℕ → List ℕ
stock zero = []
stock (suc n) = slot_size * suc n ∷ stock n

length-stock : (n : ℕ) → length (stock n) ≡ n
length-stock zero = refl
length-stock (suc n) = omega (arith, length-stock n)

AllReal-stock : (n : ℕ) → ltb n 1000 ≡ true → AllReal (stock n)
AllReal-stock zero h = tt
AllReal-stock (suc n) h = (ground arith, AllReal-stock n (ground arith))

-- the second of two clients has 600 pages, the first none
abbrev amount : Array ℕ
amount fl = if fl == 1 then 600 else 0

abbrev uneven : PerCpuPool
uneven = record {
  num_clients = 2;
  total_fl = 2;
  per_cli_fl = 1;
  max_chunks = 900;
  mem_pool_size = 900 * slot_size;
  allocs = λ fl. slot_size * amount fl;
  useds = λ fl. 0;
  min_fl_alloc = 450 * slot_size * 10 / 100;
  min_fl_free = 450 * slot_size * 5 / 100;
  freelist = λ fl. stock (amount fl);
}

lends : ((allocate_from_peer uneven 0).0 ≡ slot_size * 600) × (select_by_greedy uneven 0 ≡ 1)
unfolding program
lends = (refl, refl)

stock-Fits : (n : ℕ) → n ≤ 600 → Fits 900 (slot_size * n) 0 (stock n)
stock-Fits n h = record {
  alloc_word = omega arith;
  used_word = omega arith;
  free = omega (arith, length-stock n);
  real = AllReal-stock n (ground arith);
  bounded = omega (arith, length-stock n);
}

uneven-IsBalanced : IsBalanced uneven
uneven-IsBalanced fl = elim (Bool-cases (fl == 1)) [
  | inl e ↦ rw e (stock-Fits 600 (omega arith))
  | inr e ↦ rw e (stock-Fits 0 (omega arith))
]

allocate-Allocated_example :
    Allocated uneven 1 (allocate uneven 1 (negsuc 0) 5)
    × IsBalanced (allocate uneven 1 (negsuc 0) 5).1
allocate-Allocated_example =
    allocate-Allocated uneven 1 (negsuc 0) 5 uneven-IsBalanced (omega arith) tt

allocate_from_peer-Lent_example :
    Lent uneven 0 (allocate_from_peer uneven 0) × IsBalanced (allocate_from_peer uneven 0).1
allocate_from_peer-Lent_example =
    allocate_from_peer-Lent uneven 0 uneven-IsBalanced (omega arith) (omega arith)

free-IsBalanced_example : IsBalanced (free uneven 8208 0 (pos 0) 5)
free-IsBalanced_example =
    free-IsBalanced uneven 8208 0 (pos 0) 5 uneven-IsBalanced (omega arith) (omega arith)
