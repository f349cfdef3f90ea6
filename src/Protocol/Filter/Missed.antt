-- ===== src/Protocol/Filter/Missed.antt =====
-- The exception: a key in flight while the bitmap is exchanged.
use mathlib.Core.List.{Memᴰ as Mem}
use cleancache_rdma.Prelude.{
  ℕ, zero, suc, ◌+◌, ◌/◌, ◌%◌, ◌<◌, ◌≤◌, ◌≡◌, Bool, true, false, Array, [], ◌∷◌, some, refl, arith,
  inl, inr, update,
}
use cleancache_rdma.Prelude.Bits.{bit-or, bit-zero, bit_and-pow_test}
use cleancache_rdma.Driver.BloomFilter.{
  BloomFilter, bf_init, bf_might_contain, check_merging, clear_from, bits_to_longs, probe_from,
  compute_hash, calc_bitidx, bf_add, bf_blocking, bf_unblocking, bf_merge,
}
use cleancache_rdma.Driver.BloomFilter.Bits.{bit_at, merge_from-or}
use cleancache_rdma.Daemon.CountingBloomFilter.{new, to_ordinary_bf}
use cleancache_rdma.Daemon.CountingBloomFilter.Ordinary.{to_ordinary_bf-bit}
use cleancache_rdma.Daemon.CountingBloomFilter.Counts.{hits, total}
use cleancache_rdma.Protocol.Filter.{
  System, Reach, start, later, fresh, puts, arrives, begins, answers, writes, ends, put, arrive,
  do_update_filter, answer, rdma_write, process_imm, update_filter, filter_update_end, idle,
}
use cleancache_rdma.Protocol.Filter.Bits.{bf_add-Grows}
use cleancache_rdma.Protocol.Filter.Contained.{IsMade, bf_init_lem, Reach-contain}

clear_from-zero : (n i : ℕ) (tmp : Array ℕ) (k : ℕ) → tmp k ≡ 0 → clear_from n i tmp k ≡ 0
unfolding clear_from
clear_from-zero zero i tmp k h = h
clear_from-zero (suc n) i tmp k h = clear_from-zero n (i + 1) (update tmp i 0) k (ground (arith, h))

blank_at_server :
    (num_hash num_bits j : ℕ)
    → j < num_bits
    → bit_at (to_ordinary_bf (new num_hash num_bits)).bf_long_bitarr j ≡ 0
unfolding new
blank_at_server num_hash num_bits j below =
    ground (arith, to_ordinary_bf-bit (new num_hash num_bits) j (omega arith) below)

module _ (hash_funcs : ℕ → ℕ → ℕ) where
  hits-le : (m o j n i : ℕ) → hits hash_funcs m o j n i ≤ n
  hits-le m o j zero i = omega arith
  hits-le m o j (suc n) i = ground (arith, hits-le m o j n (i + 1))

  -- a filter update from its begin to its end, with no other step between
  abbrev pub updated : System → System
  updated s =
      process_imm
        (rdma_write (answer (do_update_filter s)) (to_ordinary_bf s.server).bf_long_bitarr)
        filter_update_end

  -- a put, and an update while the key is in flight
  abbrev after_update : System → ℕ → System
  after_update s key = updated (put hash_funcs s key)

  blank :
      {f : BloomFilter} (key num_hash num_bits j : ℕ)
      → IsMade f num_hash num_bits
      → check_merging f ≡ false
      → j < num_bits
      → bit_at (after_update (fresh f num_hash num_bits) key).client.bitmap j ≡ 0
  unfolding process_imm update_filter rdma_write answer do_update_filter put bf_unblocking bf_merge
      bf_blocking bf_add
  blank {f} key num_hash num_bits j made quiet below =
      let longs = bits_to_longs f.num_bits in
      let tmp = clear_from longs 0 f.tmp_bitmap in
      let snap = (to_ordinary_bf (new num_hash num_bits)).bf_long_bitarr in
      let at =
        merge_from-or tmp longs 0 snap (j / 64) (omega arith)
          (omega (arith, made.num_bits, below)) in
      let clear = clear_from-zero longs 0 f.tmp_bitmap (j / 64) (made.empty (j / 64)) in
      rw quiet (
        rw at (
          ground (
            arith,
            bit-or (snap (j / 64)) (tmp (j / 64)) (j % 64),
            bit-zero (j % 64),
            clear,
            blank_at_server num_hash num_bits j below,
          )))

  blank-probe_from :
      (f : BloomFilter) (bitmap : Array ℕ) (key n i : ℕ)
      → 0 < n
      → bit_at bitmap (hash_funcs i key % f.num_bits) ≡ 0
      → probe_from hash_funcs f bitmap key n i ≡ false
  unfolding probe_from compute_hash calc_bitidx
  blank-probe_from f bitmap key zero i pos h = absurd (omega arith)
  blank-probe_from f bitmap key (suc n) i pos h =
      let k = hash_funcs i key % f.num_bits in
      rw (bit_and-pow_test (bitmap (k / 64)) (k % 64), h) refl

  denied :
      {f : BloomFilter} (key num_hash num_bits : ℕ)
      → IsMade f num_hash num_bits
      → 0 < num_hash
      → 0 < num_bits
      → bf_might_contain hash_funcs
          (arrive hash_funcs (after_update (fresh f num_hash num_bits) key) key []).client
          key
        ≡ false
  unfolding process_imm update_filter rdma_write answer do_update_filter put arrive bf_unblocking
      bf_merge bf_blocking bf_might_contain check_merging
  denied {f} key num_hash num_bits made some_hash pos =
      let quiet : check_merging f ≡ false = rw made.merging refl in
      let g = (after_update (fresh f num_hash num_bits) key).client in
      let sizes = bf_add-Grows hash_funcs f key in
      blank-probe_from g g.bitmap key g.num_hash 0 (rw (sizes.num_hash, made.num_hash) some_hash) (
        blank key num_hash num_bits (hash_funcs 0 key % g.num_bits) made quiet
          (rw (sizes.num_bits, made.num_bits) (grind arith)))

  arrived :
      (s : System) (key : ℕ)
      → s.flight ≡ []
      → s.stored ≡ []
      → s.phase ≡ idle
      → ((j : ℕ) → total hash_funcs s.server.num_hash s.server.num_bits (key ∷ []) j ≤ 255)
      → Reach hash_funcs s (arrive hash_funcs (after_update s key) key [])
  unfolding process_imm update_filter rdma_write answer do_update_filter put to_ordinary_bf
  arrived s key flight stored quiet fits =
      later
        (later
          (later (later (later (later start (puts key)) (begins quiet)) (answers refl))
            (writes (to_ordinary_bf s.server).bf_long_bitarr refl))
          (ends refl))
        (arrives [] key [] (rw flight refl) (rw stored fits))

  nothing_missed : {A : Type 0} {key : ℕ} → Mem key [] → A
  nothing_missed m = elim m [ ]

  -- A key that was just put is found.
  found_before :
      {f : BloomFilter} (kzalloc_ok vzalloc_ok : Bool) (num_hash num_bits key : ℕ)
      → 0 < num_bits
      → bf_init kzalloc_ok vzalloc_ok num_hash num_bits true ≡ some f
      → bf_might_contain hash_funcs (put hash_funcs (fresh f num_hash num_bits) key).client key
        ≡ true
  unfolding put
  found_before kz vz num_hash num_bits key pos e =
      elim (Reach-contain hash_funcs kz vz num_hash num_bits key pos e (later start (puts key))
        (inr (Mem.head refl))) [ inl missed ↦ nothing_missed missed | inr found ↦ found ]

  -- Fresh filters of the same size, with at least one bit and 1 to 255 hash functions, and any key. Once
  -- it is put, the key is in flight and the client's filter has it. A filter update that begins then
  -- and is through before the key arrives leaves the key in flight, and a client's filter that says
  -- that the server does not have it. When the key has arrived the server holds it, no update is under
  -- way, and the client still says that it does not. All of this is a run of the program.
  pub missed_by_update :
      {f : BloomFilter} (kzalloc_ok vzalloc_ok : Bool) (num_hash num_bits key : ℕ)
      → 0 < num_hash
      → num_hash ≤ 255
      → 0 < num_bits
      → bf_init kzalloc_ok vzalloc_ok num_hash num_bits true ≡ some f
      → let sent = put hash_funcs (fresh f num_hash num_bits) key in
        let denying = updated sent in
        let arrived = arrive hash_funcs denying key [] in
        (Mem key sent.flight × (bf_might_contain hash_funcs sent.client key ≡ true))
        × (Mem key denying.flight × (bf_might_contain hash_funcs denying.client key ≡ false))
        × (Mem key arrived.stored × (bf_might_contain hash_funcs arrived.client key ≡ false))
        × (arrived.phase ≡ idle)
        × Reach hash_funcs (fresh f num_hash num_bits) arrived
  unfolding process_imm update_filter rdma_write answer do_update_filter put arrive new
      to_ordinary_bf
  missed_by_update {f} kz vz num_hash num_bits key some_hash few pos e =
      let made = bf_init_lem kz vz num_hash num_bits true e in
      let denies = denied key num_hash num_bits made some_hash pos in
      (
        (Mem.head refl, found_before kz vz num_hash num_bits key pos e),
        (Mem.head refl, denies),
        (Mem.head refl, denies),
        refl,
        arrived (fresh f num_hash num_bits) key refl refl refl
            (λ j. omega (arith, few, hits-le num_bits key j num_hash 0)),
      )
