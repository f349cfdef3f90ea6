-- ===== src/Daemon/Pair.antt =====
-- daemon/util/pair.h: the marks among the 64-bit keys, the null value and the exceptions of the
-- classes that are built on them. A key is a number below 2 ^ 64, a value is an address.
use cleancache_rdma.Prelude.{ℕ, ◌-◌, ◌^◌}

abbrev pub invalid : ℕ
invalid = 2 ^ 64 - 1

abbrev pub tombstone : ℕ
tombstone = 2 ^ 64 - 4

-- INVALID32, and `(unsigned int) -1`
abbrev pub invalid32 : ℕ
invalid32 = 2 ^ 32 - 1

-- NONE
abbrev pub no_value : ℕ
no_value = 0

-- The `std::runtime_error`s that are thrown.
pub data Error : Type 0 where
  key_is_duplicated wrong_victim_slot evict_key evict_value dup_key_failed : Error
  -- This one the program does not throw: an array of the clients is read for a client that there is
  -- not, and what happens from there on is undefined.
  client_out_of_range : Error

pub data Run {ℓ} (A : Type ℓ) : Type ℓ where
  ok : A → Run A
  throw : Error → Run A
