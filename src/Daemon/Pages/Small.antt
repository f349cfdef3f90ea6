-- ===== src/Daemon/Pages/Small.antt =====
-- A small server, each page of which is in one place: for the tests.
use cleancache_rdma.Prelude.{
  ℕ, ◌*◌, ◌≡◌, refl, true, false, List, [], ◌∷◌, ◌==◌, if◌then◌else◌, arith, Bool-cases, inl, inr,
  subst, sym, ◌⊎◌, ==_iff, none, ◌||◌,
}
use cleancache_rdma.Daemon.Pair.{no_value, invalid, tombstone}
use cleancache_rdma.Daemon.LockFreeStack.{no_addr}
use cleancache_rdma.Daemon.PerCpuPool.{PerCpuPool, slot_size}
use cleancache_rdma.Daemon.PerCpuPool.Balance.{IsBalanced}
use cleancache_rdma.Daemon.LinearProbing.{new}
use cleancache_rdma.Daemon.LinearProbing.Placed.{new-IsPlaced}
use cleancache_rdma.Daemon.LinearProbing.View.{view-Absent}
use cleancache_rdma.Daemon.CountingBloomFilter
use cleancache_rdma.Daemon.Handlers.{Server}
use cleancache_rdma.Daemon.Pages.{
  Owned, count, entries, in_post, in_hand, Place, in_free, Holding, amount, at, under,
}
use cleancache_rdma.Daemon.Pages.Moves.{mk}
use cleancache_rdma.Daemon.Pages.Messages.{Kept}

abbrev pub by_key : ℕ → ℕ → ℕ
by_key salt key = key

abbrev pub same : ℕ → ℕ
same n = n

abbrev pub first_page : ℕ
first_page = 90000

abbrev pub second_page : ℕ
second_page = 94104

abbrev pub third_page : ℕ
third_page = 98208

abbrev pub all : List ℕ
all = first_page ∷ second_page ∷ third_page ∷ []

-- one list, with the third page
abbrev free_pages : PerCpuPool
free_pages = record {
  num_clients = 1;
  total_fl = 1;
  per_cli_fl = 1;
  max_chunks = 3;
  mem_pool_size = 3 * slot_size;
  allocs = λ fl. if fl == 0 then 3 * slot_size else 0;
  useds = λ fl. if fl == 0 then 2 * slot_size else 0;
  min_fl_alloc = 0;
  min_fl_free = 0;
  freelist = λ fl. if fl == 0 then third_page ∷ [] else [];
}

free_pages-IsBalanced : IsBalanced free_pages
free_pages-IsBalanced fl = elim (Bool-cases (fl == 0)) [
  | inl e ↦ rw e (record {
    alloc_word = omega arith;
    used_word = omega arith;
    free = refl;
    real = (omega arith, tt);
    bounded = omega arith;
  })
  | inr e ↦ rw e (record {
    alloc_word = omega arith;
    used_word = omega arith;
    free = refl;
    real = tt;
    bounded = omega arith;
  })
]

-- The first two pages are posted.
abbrev pub first : Server
first = record {
  exclusive_policy = false;
  num_msgs = 4;
  num_data_qps = 1;
  kv = record {
    num_ht_shards = 1;
    cbf_on = true;
    hashes = λ i. new 32;
    pool = free_pages;
    cbfs = λ i. CountingBloomFilter.new 2 64;
    victim_shard_id = 0;
  };
  recvs = first_page ∷ second_page ∷ [];
  replies = [];
  sent_filters = [];
}

no_entry : (shard key : ℕ) → entries by_key (λ i. new 32) shard key ≡ none
unfolding new
no_entry shard key = elim (Bool-cases (key == invalid || key == tombstone)) [
  | inl e ↦ rw e refl
  | inr e ↦ rw e (
      view-Absent by_key (new 32) key (new-IsPlaced by_key 32 (omega arith))
        (λ s below at. ground (arith, e)))
]

abbrev at_first : List ℕ → List ℕ → Holding
at_first posted hand = mk posted hand free_pages.freelist (entries by_key (λ i. new 32))

posted_there :
    (a : ℕ)
    → (a == third_page) ≡ false
    → count a (first_page ∷ second_page ∷ []) ≡ 1
    → (p : Place) → amount (at_first (first_page ∷ second_page ∷ []) []) a p ≡ at in_post p
posted_there a e once in_post = once
posted_there a e once in_hand = refl
posted_there a e once (in_free i) = ground (arith, e)
posted_there a e once (under s k) = rw (no_entry s k) refl

free_there :
    (p : Place)
    → amount (at_first (first_page ∷ second_page ∷ []) []) third_page p ≡ at (in_free 0) p
free_there in_post = refl
free_there in_hand = refl
free_there (in_free i) = ground arith
free_there (under s k) = rw (no_entry s k) refl

nowhere :
    (a : ℕ)
    → count a all ≡ 0
    → (p : Place) → amount (at_first (first_page ∷ second_page ∷ []) []) a p ≡ 0
nowhere a c in_post = ground (arith, c)
nowhere a c in_hand = refl
nowhere a c (in_free i) = ground (arith, c)
nowhere a c (under s k) = rw (no_entry s k) refl

first-Owned : Owned all (at_first (first_page ∷ second_page ∷ []) [])
first-Owned a = elim (Bool-cases (a == third_page)) [
  | inl e ↦
      subst
        (λ x.
          ((count x all ≡ 0)
            × ((p : Place) → amount (at_first (first_page ∷ second_page ∷ []) []) x p ≡ 0))
          ⊎ ((count x all ≡ 1)
              × (q : Place) × ((p : Place)
                  → amount (at_first (first_page ∷ second_page ∷ []) []) x p ≡ at q p)))
        (sym ((==_iff a third_page).0 e)) (inr (refl, in_free 0, free_there))
  | inr e ↦ elim (Bool-cases (a == first_page || a == second_page)) [
    | inl f ↦ inr (ground (arith, e, f), in_post, posted_there a e (ground (arith, f)))
    | inr f ↦ let c : count a all ≡ 0 = ground (arith, e, f) in inl (c, nowhere a c)
  ]
]

pub real : count no_addr all ≡ 0
real = omega arith

pub some_page : count no_value all ≡ 0
some_page = omega arith

pub first-Kept : Kept by_key all real some_page first []
unfolding new
first-Kept = record {
  tables = record { placed = λ s. new-IsPlaced by_key 32 (omega arith); large = λ s. omega arith };
  pool = record { balanced = free_pages-IsBalanced; queues = omega arith; wide = omega arith };
  known = λ s k v e. let gone = no_entry s k in absurd (ground arith);
  owned = first-Owned;
}
