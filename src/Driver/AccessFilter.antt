-- ===== src/Driver/AccessFilter.antt =====
-- driver/access_filter.h: the filter of accesses close to the last one of the same inode.
-- `golden_ratio_64` is the kernel's constant; a `u32` index is taken modulo 2 ^ 32.
mod Tests
use cleancache_rdma.Prelude.{
  ℕ, ◌+◌, ◌-◌, ◌*◌, ◌/◌, ◌%◌, ◌^◌, ◌≡◌, ◌≢◌, refl, Bool, true, false, not, ◌&&◌, Option, none, some,
  ltb, ◌==◌, if◌then◌else◌, Array, update, Bool-cases, inl, inr, arith,
}

pub record AfBucket : Type 0 where
  pub ino : ℕ
  pub index : ℕ

pub record AccessFilter : Type 0 where
  pub num_buckets : ℕ
  pub lock_size : ℕ
  pub num_locks : ℕ
  pub buckets : Array AfBucket

-- `af_init`, whose three allocations succeed or not
unfoldable pub af_init : Bool → Bool → Bool → Option AccessFilter
af_init filter_ok buckets_ok locks_ok =
    if filter_ok && buckets_ok && locks_ok
    then some (record {
      num_buckets = 4096;
      lock_size = 16;
      num_locks = 4096 / 16 + 1;
      buckets = λ i. record { ino = 0; index = 0 };
    })
    else none

abbrev pub diff_abs : ℕ → ℕ → ℕ
diff_abs x y = if ltb y x then x - y else y - x

module _ (golden_ratio_64 : ℕ) where
  unfoldable pub bkt_id : AccessFilter → ℕ → ℕ
  bkt_id af ino = ino * golden_ratio_64 % 2 ^ 64 % af.num_buckets % 2 ^ 32

  unfoldable pub af_upsert : AccessFilter → ℕ → ℕ → Bool × AccessFilter
  af_upsert af ino index =
      let bucket = af.buckets (bkt_id af ino) in
      let ret = if bucket.ino == ino then not (ltb (diff_abs bucket.index index) 32) else true in
      (
        ret,
        record af {
          buckets = update af.buckets (bkt_id af ino) (record { ino = ino; index = index });
        },
      )

  -- Right after an access of an inode, the next access of the same inode is let through exactly when
  -- it is 32 pages or more away.
  pub af_upsert-again :
      (af : AccessFilter) (ino index next : ℕ)
      → (af_upsert (af_upsert af ino index).1 ino next).0 ≡ not (ltb (diff_abs index next) 32)
  unfolding af_upsert bkt_id
  af_upsert-again af ino index next =
      let b = ino * golden_ratio_64 % 2 ^ 64 % af.num_buckets % 2 ^ 32 in
      let here : (b == b) ≡ true = ground arith in
      let same : (ino == ino) ≡ true = ground arith in rw (here, same)

  -- An access changes what is answered to another inode only where the two share a bucket.
  pub af_upsert-apart :
      (af : AccessFilter) (ino index other next : ℕ)
      → bkt_id af ino ≢ bkt_id af other
      → (af_upsert (af_upsert af ino index).1 other next).0 ≡ (af_upsert af other next).0
  unfolding af_upsert bkt_id
  af_upsert-apart af ino index other next apart =
      let away : (bkt_id af ino == bkt_id af other) ≡ false = ground arith in rw away
