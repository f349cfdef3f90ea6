-- ===== src/Daemon/PerCpuPool.antt =====
-- daemon/percpu_pool.{hpp,cpp}: the class PerCPUPool. A free list is the list of the addresses on
-- its stack, of at most `max_chunks`, as LockFreeStack/Refine has it. `size_t` sums are taken
-- modulo 2 ^ 64. `rand` is what `pool_uni_dist.GetRand()` answers. Products of the small constants
-- and the counts of lists are exact.
pub mod Balance
pub mod Pages
mod Tests
use cleancache_rdma.Prelude.{
  ℕ, zero, suc, ◌+◌, ◌-◌, ◌*◌, ◌/◌, ◌%◌, ◌^◌, Bool, true, false, ◌&&◌, List, [], ◌∷◌, ltb, ◌==◌,
  if◌then◌else◌, Array, update,
}
use cleancache_rdma.Prelude.Int.{ℤ, pos, negsuc}
use cleancache_rdma.Daemon.LockFreeStack.{no_addr}
use cleancache_rdma.Daemon.LockFreeStack.Refine.{push_value, pop_value}

-- sizeof(struct slot): a page and its key
abbrev pub slot_size : ℕ
slot_size = 4096 + 8

abbrev pub add_size : ℕ → ℕ → ℕ
add_size a b = (a + b) % 2 ^ 64

abbrev pub sub_size : ℕ → ℕ → ℕ
sub_size a b = (a + 2 ^ 64 - b) % 2 ^ 64

abbrev pub megabytes : ℕ → ℕ
megabytes n = n / 2 ^ 20

pub record PerCpuPool : Type 0 where
  pub num_clients : ℕ
  pub total_fl : ℕ
  pub per_cli_fl : ℕ
  pub max_chunks : ℕ
  pub mem_pool_size : ℕ
  pub allocs : Array ℕ
  pub useds : Array ℕ
  pub min_fl_alloc : ℕ
  pub min_fl_free : ℕ
  pub freelist : Array (List ℕ)

abbrev pub alloc_thold_perc : ℕ
alloc_thold_perc = 10

abbrev pub free_thold_perc : ℕ
free_thold_perc = 5

-- `freelist_[fl]->PutFreeAddr(addr)`
unfoldable pub put_free_addr : PerCpuPool → ℕ → ℕ → PerCpuPool
put_free_addr p fl addr = record p {
  freelist = update p.freelist fl (push_value p.max_chunks (p.freelist fl) addr).1;
}

-- `freelist_[fl]->GetFreeAddr()`
unfoldable pub get_free_addr : PerCpuPool → ℕ → ℕ × PerCpuPool
get_free_addr p fl =
    let (addr, rest) = pop_value (p.freelist fl) in
    (addr, record p { freelist = update p.freelist fl rest })

abbrev pub add_alloc : PerCpuPool → ℕ → PerCpuPool
add_alloc p fl = record p { allocs = update p.allocs fl (add_size (p.allocs fl) slot_size) }

abbrev pub sub_alloc : PerCpuPool → ℕ → PerCpuPool
sub_alloc p fl = record p { allocs = update p.allocs fl (sub_size (p.allocs fl) slot_size) }

abbrev pub add_used : PerCpuPool → ℕ → PerCpuPool
add_used p fl = record p { useds = update p.useds fl (add_size (p.useds fl) slot_size) }

abbrev pub sub_used : PerCpuPool → ℕ → PerCpuPool
sub_used p fl = record p { useds = update p.useds fl (sub_size (p.useds fl) slot_size) }

-- `for (j = init_chunks - 1; j >= 0; j--)`, with `j + 1` rounds left
unfoldable pub fill_list : ℕ → ℕ → ℕ → PerCpuPool → PerCpuPool
fill_list zero fl addr p = p
fill_list (suc j) fl addr p =
    fill_list j fl addr (add_alloc (put_free_addr p fl (add_size addr (j * slot_size))) fl)

-- the loop over the free lists
unfoldable pub fill_lists : ℕ → ℕ → ℕ → ℕ → PerCpuPool → PerCpuPool
fill_lists init_chunks zero i addr p = p
fill_lists init_chunks (suc n) i addr p =
    fill_lists init_chunks n (i + 1) (add_size addr (init_chunks * slot_size))
      (fill_list init_chunks i addr p)

-- The constructor.
unfoldable pub new : ℕ → ℕ → ℕ → ℕ → PerCpuPool
new num_clients num_data_qps mem_pool_size start_addr =
    let total_fl = num_clients * num_data_qps in
    let init_chunks = mem_pool_size / slot_size / total_fl in
    fill_lists init_chunks total_fl 0 start_addr (record {
      num_clients = num_clients;
      total_fl = total_fl;
      per_cli_fl = num_data_qps;
      max_chunks = mem_pool_size / slot_size;
      mem_pool_size = mem_pool_size;
      allocs = λ fl. 0;
      useds = λ fl. 0;
      min_fl_alloc = init_chunks * slot_size * alloc_thold_perc / 100;
      min_fl_free = init_chunks * slot_size * free_thold_perc / 100;
      freelist = λ fl. [];
    })

-- A `size_t` that goes through an `int`: its low 32 bits, with the sign carried up.
abbrev pub through_int : ℕ → ℕ
through_int n = let low = n % 2 ^ 32 in if ltb low (2 ^ 31) then low else low + (2 ^ 64 - 2 ^ 32)

unfoldable pub get_thld_free : PerCpuPool → ℕ → ℕ
get_thld_free p fl =
    let cur_thold = through_int (p.allocs fl * free_thold_perc % 2 ^ 64 / 100) in
    if ltb p.min_fl_free cur_thold then cur_thold else p.min_fl_free

-- `GetClientAlloc`, `GetClientUsed`: a sum over the `n` lists from `i` on
unfoldable pub sum_from : Array ℕ → ℕ → ℕ → ℕ → ℕ
sum_from a zero i sum = sum
sum_from a (suc n) i sum = sum_from a n (i + 1) (add_size sum (a i))

unfoldable pub get_client_alloc : PerCpuPool → ℕ → ℕ
get_client_alloc p cli_id = sum_from p.allocs p.per_cli_fl (cli_id * p.per_cli_fl) 0

unfoldable pub get_client_used : PerCpuPool → ℕ → ℕ
get_client_used p cli_id = sum_from p.useds p.per_cli_fl (cli_id * p.per_cli_fl) 0

-- `GetFree(fl_id)`
unfoldable pub get_free : PerCpuPool → ℕ → ℕ
get_free p fl = sub_size (p.allocs fl) (p.useds fl)

unfoldable pub get_client_free : PerCpuPool → ℕ → ℕ
get_client_free p cli_id = sub_size (get_client_alloc p cli_id) (get_client_used p cli_id)

-- The loop of `SelectByFreeMem`: the clients after `next` that are left, the best so far.
unfoldable pub select_from : PerCpuPool → ℕ → ℕ → ℕ → ℕ → ℕ
select_from p zero next max_free tgt = tgt
select_from p (suc n) next max_free tgt =
    let free = get_client_free p next in
    let thld_free = get_thld_free p (next * p.per_cli_fl) * p.per_cli_fl % 2 ^ 64 in
    let alloc_cond =
      ltb (megabytes (p.min_fl_alloc * p.per_cli_fl)) (megabytes (get_client_alloc p next)) in
    let free_cond = ltb (megabytes thld_free) (megabytes free) in
    let avail = sub_size free thld_free in
    let better = alloc_cond && free_cond && ltb (megabytes max_free) (megabytes avail) in
    select_from p n ((next + 1) % p.num_clients) (if better then avail else max_free)
      (if better then next else tgt)

unfoldable pub select_by_free_mem : PerCpuPool → ℕ → ℕ
select_by_free_mem p cur_cli_id =
    select_from p (p.num_clients - 1) ((cur_cli_id + 1) % p.num_clients) 0 cur_cli_id

-- The loop of `SelectByGreedy`
unfoldable pub greedy_from : PerCpuPool → ℕ → ℕ → ℕ
greedy_from p zero next = next
greedy_from p (suc n) next =
    let rest = greedy_from p n ((next + 1) % p.num_clients) in
    let alloc_cond =
      ltb (megabytes (p.min_fl_alloc * p.per_cli_fl)) (megabytes (get_client_alloc p next)) in
    let free_cond =
      ltb (megabytes (p.min_fl_free * p.per_cli_fl)) (megabytes (get_client_free p next)) in
    if alloc_cond && free_cond then next else rest

unfoldable pub select_by_greedy : PerCpuPool → ℕ → ℕ
select_by_greedy p cur_cli_id = greedy_from p (p.num_clients - 1) ((cur_cli_id + 1) % p.num_clients)

-- how many free lists of a client a call tries
abbrev pub num_iter : PerCpuPool → ℕ
num_iter p = if p.per_cli_fl == 1 then 1 else p.per_cli_fl / 2

-- the next free list of the client whose lists start at `first`, going round
abbrev pub next_fl : PerCpuPool → ℕ → ℕ → ℕ
next_fl p first fl = if fl == first + p.per_cli_fl - 1 then first else fl + 1

-- One page of `peer` is lent to `cur`.
abbrev pub borrow : PerCpuPool → ℕ → ℕ → ℕ → PerCpuPool
borrow p peer cur addr = put_free_addr (add_alloc (sub_alloc p peer) cur) cur addr

-- The loop of `AllocateFromPeer`; the list is tried again where its thresholds forbid.
unfoldable pub borrow_from : ℕ → PerCpuPool → ℕ → ℕ → ℕ → ℕ × PerCpuPool
borrow_from zero p first peer cur = (no_addr, p)
borrow_from (suc n) p first peer cur =
    let alloc_cond = ltb (megabytes p.min_fl_alloc) (megabytes (p.allocs peer)) in
    let free_cond = ltb (megabytes p.min_fl_free) (megabytes (get_free p peer)) in
    let (addr, p') = get_free_addr p peer in
    let again = borrow_from n p first peer cur in
    let onward = borrow_from n p' first (next_fl p first peer) cur in
    if alloc_cond && free_cond
    then (if addr == no_addr then onward else (addr, borrow p' peer cur addr))
    else again

unfoldable pub allocate_from_peer : PerCpuPool → ℕ → ℕ × PerCpuPool
allocate_from_peer p fl_id =
    let cur_cli_id = fl_id / p.per_cli_fl in
    let next_cli_id = select_by_free_mem p cur_cli_id in
    let first = next_cli_id * p.per_cli_fl in
    if cur_cli_id == next_cli_id
    then (no_addr, p)
    else borrow_from (num_iter p) p first (first + fl_id % p.per_cli_fl) fl_id

-- `qid`, or a random list of the client for -1
abbrev pub fl_of : PerCpuPool → ℕ → ℤ → ℕ → ℕ
fl_of p cid (pos qid) rand = cid * p.per_cli_fl + qid
fl_of p cid (negsuc n) rand = cid * p.per_cli_fl + rand % p.per_cli_fl

-- The loop of `Allocate`
unfoldable pub allocate_from : ℕ → PerCpuPool → ℕ → ℕ → ℕ × PerCpuPool
allocate_from zero p first fl = (no_addr, p)
allocate_from (suc n) p first fl =
    let (addr, p') = get_free_addr p fl in
    let onward = allocate_from n p' first (next_fl p first fl) in
    if addr == no_addr then onward else (addr, add_used p' fl)

unfoldable pub allocate : PerCpuPool → ℕ → ℤ → ℕ → ℕ × PerCpuPool
allocate p cid qid rand = allocate_from (num_iter p) p (cid * p.per_cli_fl) (fl_of p cid qid rand)

-- `Free`
unfoldable pub free : PerCpuPool → ℕ → ℕ → ℤ → ℕ → PerCpuPool
free p addr cid qid rand = let fl = fl_of p cid qid rand in sub_used (put_free_addr p fl addr) fl
