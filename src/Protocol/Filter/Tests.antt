-- ===== src/Protocol/Filter/Tests.antt =====
-- The two filters with a hash function of their own: a put, a whole update and a second put, and the
-- update that misses a key.
use mathlib.Core.List.{Memᴰ as Mem}
use cleancache_rdma.Prelude.{ℕ, ◌+◌, ◌≡◌, ◌⊎◌, true, false, [], ◌∷◌, inr, refl, arith}
use cleancache_rdma.Driver.BloomFilter.{BloomFilter, bf_init, bf_might_contain}
use cleancache_rdma.Daemon.CountingBloomFilter.{to_ordinary_bf}
use cleancache_rdma.Protocol.Filter.{
  System, Reach, start, later, fresh, puts, begins, answers, writes, ends, put, arrive,
  do_update_filter, answer, rdma_write, process_imm, update_filter, filter_update_end, idle,
}
use cleancache_rdma.Protocol.Filter.Contained.{Reach-contain}
use cleancache_rdma.Protocol.Filter.Missed.{missed_by_update}
use cleancache_rdma.Protocol.Filter.Missed

abbrev hash_funcs : ℕ → ℕ → ℕ
hash_funcs i key = key + i

abbrev client : BloomFilter
client = record {
  is_ordinary_bf = false;
  num_hash = 2;
  num_bits = 100;
  bitmap_size = 16;
  bitmap = λ i. 0;
  tmp_bitmap = λ i. 0;
  merging = 0;
}

-- key 7 is put before an update and key 8 while it is under way
abbrev asked_for : System
asked_for = put hash_funcs (do_update_filter (put hash_funcs (fresh client 2 100) 7)) 8

abbrev updated : System
updated =
    process_imm (rdma_write (answer asked_for) (to_ordinary_bf asked_for.server).bf_long_bitarr)
      filter_update_end

updated_Reach : Reach hash_funcs (fresh client 2 100) updated
unfolding process_imm update_filter rdma_write answer do_update_filter put to_ordinary_bf
updated_Reach =
    later
      (later (later (later (later (later start (puts 7)) (begins refl)) (puts 8)) (answers refl))
        (writes (to_ordinary_bf asked_for.server).bf_long_bitarr refl))
      (ends refl)

Reach-contain_example :
    Mem {A = ℕ} 8 (7 ∷ []) ⊎ (bf_might_contain hash_funcs updated.client 8 ≡ true)
unfolding process_imm update_filter rdma_write answer do_update_filter put bf_init
Reach-contain_example =
    Reach-contain hash_funcs true true 2 100 8 (omega arith) refl updated_Reach
      (inr (Mem.head refl))

missed_by_update_example :
    let sent = put hash_funcs (fresh client 2 100) 7 in
    let denying = Missed.updated hash_funcs sent in
    let arrived = arrive hash_funcs denying 7 [] in
    (Mem 7 sent.flight × (bf_might_contain hash_funcs sent.client 7 ≡ true))
    × (Mem 7 denying.flight × (bf_might_contain hash_funcs denying.client 7 ≡ false))
    × (Mem 7 arrived.stored × (bf_might_contain hash_funcs arrived.client 7 ≡ false))
    × (arrived.phase ≡ idle)
    × Reach hash_funcs (fresh client 2 100) arrived
unfolding bf_init
missed_by_update_example =
    missed_by_update hash_funcs true true 2 100 7 (omega arith) (omega arith) (omega arith) refl
