-- ===== src/Daemon/LinearProbing.antt =====
-- daemon/hash-table/linear_probing_approx.{hpp,cpp}: the class LinearProbingApprox.
-- One call runs alone. A lock that the call waits for is taken; what `try_lock` answers is a
-- parameter, by lock index. The clock's seconds and the random numbers are parameters as well.
-- A slot number of -1 is `none`. A `while (i < capacity)` loop with its inner loop over one lock
-- range is a recursion on the rounds left, `capacity - i`.
pub mod Probe
pub mod Placed
pub mod View
pub mod Store
pub mod Insert
pub mod Effect
pub mod Small
pub mod Evict
pub mod Attempts
pub mod Evicted
mod Tests
use cleancache_rdma.Prelude.{
  ℕ, zero, suc, ◌+◌, ◌-◌, ◌/◌, ◌%◌, ◌^◌, Bool, true, false, not, ◌&&◌, ◌||◌, Option, none, some,
  ltb, leb, ◌==◌, if◌then◌else◌, Array, update,
}
use cleancache_rdma.Prelude.Int.{ℤ, pos, negsuc}
use cleancache_rdma.Daemon.Pair.{
  invalid, tombstone, invalid32, no_value, Error, key_is_duplicated, wrong_victim_slot, Run, ok,
  throw,
}

pub record Bucket : Type 0 where
  pub key : ℕ
  pub value : ℕ
  pub timestamp : ℕ
  pub busy : Bool

pub record LinearProbing : Type 0 where
  pub capacity : ℕ
  pub buckets : Array Bucket

-- LPA_Bkt_t's constructor
abbrev pub empty_bucket : Bucket
empty_bucket = record { key = invalid; value = no_value; timestamp = invalid32; busy = false }

unfoldable pub new : ℕ → LinearProbing
new capacity = record { capacity = capacity; buckets = λ slot. empty_bucket }

abbrev pub max_probing_len : ℕ
max_probing_len = 16 - 1

abbrev pub lock_size : ℕ
lock_size = max_probing_len + 1

unfoldable pub num_locks : LinearProbing → ℕ
num_locks t = t.capacity / lock_size + 1

abbrev pub is_vacant : Bucket → Bool
is_vacant b = b.key == invalid || b.key == tombstone

abbrev pub is_valid : Bucket → Bool
is_valid b = not (b.key == invalid) && not (b.key == tombstone)

-- `Utilization`: the number of valid buckets, of which the code prints the percentage.
unfoldable pub valid_from : LinearProbing → ℕ → ℕ → ℕ
valid_from t zero i = 0
valid_from t (suc n) i = (if is_valid (t.buckets i) then 1 else 0) + valid_from t n (i + 1)

unfoldable pub utilization : LinearProbing → ℕ
utilization t = valid_from t t.capacity 0

-- `SetBucket`; the clock's seconds are cut to an `unsigned int`. The busy flag stays.
unfoldable pub set_bucket : LinearProbing → ℕ → ℕ → ℕ → ℕ → LinearProbing
set_bucket t slot key value now = record t {
  buckets =
      update t.buckets slot
        (record (t.buckets slot) { key = key; value = value; timestamp = now % 2 ^ 32 });
}

unfoldable pub set_tombstone : LinearProbing → ℕ → LinearProbing
set_tombstone t slot = record t {
  buckets = update t.buckets slot (record (t.buckets slot) { key = tombstone });
}

unfoldable pub touch : LinearProbing → ℕ → ℕ → LinearProbing
touch t slot now = record t {
  buckets = update t.buckets slot (record (t.buckets slot) { timestamp = now % 2 ^ 32 });
}

-- `buckets[slot].busy.store(busy)`, and the time stamp if it is set
unfoldable pub flag : LinearProbing → ℕ → Bool → ℕ → LinearProbing
flag t slot busy now =
    let b = t.buckets slot in
    record t {
      buckets = update t.buckets slot (
          if busy
          then record b { busy = true; timestamp = now % 2 ^ 32 }
          else record b { busy = false });
    }

-- What `Insert` returns and leaves: its code, the evicted or refused pair, the table.
pub record Inserted : Type 0 where
  pub ret : ℤ
  pub ev_key : ℕ
  pub ev_value : ℕ
  pub table : LinearProbing

-- `CollEvict`
unfoldable pub coll_evict : LinearProbing → ℕ → ℕ → ℕ → ℕ → Run Inserted
coll_evict t key value victim_slot now =
    let b = t.buckets victim_slot in
    if b.key == invalid
    then throw wrong_victim_slot
    else ok (record {
      ret = pos 0;
      ev_key = b.key;
      ev_value = b.value;
      table = set_bucket t victim_slot key value now;
    })

abbrev pub refuse : LinearProbing → ℕ → ℕ → Run Inserted
refuse t key value = ok (record { ret = negsuc 0; ev_key = key; ev_value = value; table = t })

-- The branch that both ranges share: a busy victim is left alone.
unfoldable pub evict_or_refuse : LinearProbing → ℕ → ℕ → ℕ → ℕ → Run Inserted
evict_or_refuse t key value victim_slot now =
    if (t.buckets victim_slot).busy
    then refuse t key value
    else coll_evict t key value victim_slot now

-- The oldest bucket of the lock range that is probed, and of the one before it.
pub record Victims : Type 0 where
  pub min_timestamp : ℕ
  pub victim_slot : Option ℕ
  pub prev_min_timestamp : ℕ
  pub prev_victim_slot : Option ℕ
  pub prev_lock_idx : ℕ

abbrev pub no_victims : Victims
no_victims = record {
  min_timestamp = invalid32;
  victim_slot = none;
  prev_min_timestamp = invalid32;
  prev_victim_slot = none;
  prev_lock_idx = 2 ^ 64 - 1;
}

unfoldable pub note_victim : LinearProbing → ℕ → Victims → Victims
note_victim t slot v =
    if leb (t.buckets slot).timestamp v.min_timestamp
    then record v { min_timestamp = (t.buckets slot).timestamp; victim_slot = some slot }
    else v

-- The step to the next slot; a new lock range starts where `slot % lock_size` is 0.
unfoldable pub next_range : ℕ → ℕ → Victims → Victims
next_range slot next_slot v =
    if next_slot % lock_size == 0
    then record {
      min_timestamp = invalid32;
      victim_slot = none;
      prev_min_timestamp = v.min_timestamp;
      prev_victim_slot = v.victim_slot;
      prev_lock_idx = slot / lock_size;
    }
    else v

-- "cur range"
unfoldable pub collide_cur : LinearProbing → ℕ → ℕ → ℕ → Option ℕ → Run Inserted
collide_cur t key value now none = refuse t key value
collide_cur t key value now (some victim) = evict_or_refuse t key value victim now

-- "prev range"
unfoldable pub collide_prev : LinearProbing → ℕ → ℕ → ℕ → ℕ → ℕ → Run Inserted
collide_prev t key value now ev_key victim =
    if is_vacant (t.buckets victim)
    then ok (record {
      ret = pos 0;
      ev_key = ev_key;
      ev_value = no_value;
      table = set_bucket t victim key value now;
    })
    else evict_or_refuse t key value victim now

-- The last probe found no vacant slot.
unfoldable pub collide : LinearProbing → ℕ → ℕ → ℕ → ℕ → (ℕ → Bool) → Victims → Run Inserted
collide t key value now ev_key try_lock v = elim v.prev_victim_slot [
  | none ↦ collide_cur t key value now v.victim_slot
  | some prev ↦
      if ltb v.prev_min_timestamp v.min_timestamp && try_lock v.prev_lock_idx
      then collide_prev t key value now ev_key prev
      else collide_cur t key value now v.victim_slot
]

-- `Insert` after its call of `Delete`; the round with `i == capacity` leaves the loop with ret = 0.
unfoldable pub insert_from :
    LinearProbing → ℕ → ℕ → ℕ → ℕ → (ℕ → Bool) → ℕ → ℕ → ℕ → Victims → Run Inserted
insert_from t key value now ev_key try_lock loc zero i v =
    ok (record { ret = pos 0; ev_key = ev_key; ev_value = no_value; table = t })
insert_from t key value now ev_key try_lock loc (suc n) i v =
    let slot = (loc + i) % t.capacity in
    let next_slot = (loc + (i + 1)) % t.capacity in
    let noted = note_victim t slot v in
    let rest =
      insert_from t key value now ev_key try_lock loc n (i + 1) (next_range slot next_slot noted) in
    if is_vacant (t.buckets slot)
    then (if (t.buckets slot).key == key
        then throw key_is_duplicated
        else ok (record {
          ret = pos 0;
          ev_key = ev_key;
          ev_value = no_value;
          table = set_bucket t slot key value now;
        }))
    else if leb max_probing_len i
    then collide t key value now ev_key try_lock noted
    else rest

module _ (hash_funcs : ℕ → ℕ → ℕ) where
  -- `GetHashedKey`
  abbrev pub get_hashed_key : LinearProbing → ℕ → ℕ
  get_hashed_key t key = hash_funcs 0 key % t.capacity

  unfoldable pub delete_from : LinearProbing → ℕ → ℕ → ℕ → ℕ → ℕ × LinearProbing
  delete_from t key loc zero i = (no_value, t)
  delete_from t key loc (suc n) i =
      let slot = (loc + i) % t.capacity in
      let rest = delete_from t key loc n (i + 1) in
      if (t.buckets slot).key == key
      then ((t.buckets slot).value, set_tombstone t slot)
      else if (t.buckets slot).key == invalid
      then (no_value, t)
      else if leb max_probing_len i
      then (no_value, t)
      else rest

  unfoldable pub delete : LinearProbing → ℕ → ℕ × LinearProbing
  delete t key = delete_from t key (get_hashed_key t key) t.capacity 0

  unfoldable pub get_from : LinearProbing → ℕ → ℕ → ℕ → ℕ → ℕ → ℕ × LinearProbing
  get_from t key now loc zero i = (no_value, t)
  get_from t key now loc (suc n) i =
      let slot = (loc + i) % t.capacity in
      let rest = get_from t key now loc n (i + 1) in
      if (t.buckets slot).key == key
      then ((t.buckets slot).value, touch t slot now)
      else if (t.buckets slot).key == invalid
      then (no_value, t)
      else if leb max_probing_len i
      then (no_value, t)
      else rest

  unfoldable pub get : LinearProbing → ℕ → ℕ → ℕ × LinearProbing
  get t key now = get_from t key now (get_hashed_key t key) t.capacity 0

  unfoldable pub get_with_flag_from : LinearProbing → ℕ → Bool → ℕ → ℕ → ℕ → ℕ → ℕ × LinearProbing
  get_with_flag_from t key busy now loc zero i = (no_value, t)
  get_with_flag_from t key busy now loc (suc n) i =
      let slot = (loc + i) % t.capacity in
      let rest = get_with_flag_from t key busy now loc n (i + 1) in
      if (t.buckets slot).key == key
      then (if busy then (t.buckets slot).value else no_value, flag t slot busy now)
      else if (t.buckets slot).key == invalid
      then (no_value, t)
      else if leb max_probing_len i
      then (no_value, t)
      else rest

  unfoldable pub get_with_flag : LinearProbing → ℕ → Bool → ℕ → ℕ × LinearProbing
  get_with_flag t key busy now =
      get_with_flag_from t key busy now (get_hashed_key t key) t.capacity 0

  -- `Insert`: a duplicate is removed, and its value handed back for a second call.
  unfoldable pub insert : LinearProbing → ℕ → ℕ → ℕ → ℕ → (ℕ → Bool) → Run Inserted
  insert t key value now ev_key try_lock =
      let (old, t') = delete t key in
      if old == no_value
      then insert_from t' key value now ev_key try_lock (get_hashed_key t' key) t'.capacity 0
          no_victims
      else ok (record { ret = pos 0; ev_key = ev_key; ev_value = old; table = t' })
