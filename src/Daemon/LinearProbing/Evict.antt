-- ===== src/Daemon/LinearProbing/Evict.antt =====
-- `Evict` and `ApproxLRUEvict` of linear_probing_approx.cpp. An attempt is what stands between two
-- jumps to RETRY; attempt `c` draws `rand c`, and in it `try_lock c idx` answers for the lock of a
-- range that is entered, `try_prev c idx` for the one of the range before. A jump to RETRY keeps the
-- slot found so far and its time stamp. The fuel is the number of attempts.
use cleancache_rdma.Prelude.{
  ℕ, zero, suc, ◌+◌, ◌/◌, ◌%◌, Bool, not, ◌&&◌, ◌||◌, Option, none, some, ltb, leb, ◌==◌,
  if◌then◌else◌,
}
use cleancache_rdma.Daemon.Pair.{
  invalid, tombstone, no_value, evict_key, evict_value, Run, ok, throw,
}
use cleancache_rdma.Daemon.LinearProbing.{
  LinearProbing, Victims, no_victims, max_probing_len, lock_size, is_vacant, is_valid,
  set_tombstone, note_victim, next_range,
}

abbrev pub max_evict_retry : ℕ
max_evict_retry = 2

-- how an attempt ends: at RETRY, with a slot to evict, or past the last slot
pub data Attempt : Type 0 where
  retry : Victims → Attempt
  out : ℕ → Attempt
  past : Attempt

-- from the label out_direct on
unfoldable pub out_direct : LinearProbing → (ℕ → Bool) → Victims → Attempt
out_direct t try_prev v = elim v.victim_slot [
  | none ↦ retry v
  | some cur ↦ elim v.prev_victim_slot [
    | none ↦ out cur
    | some prev ↦
        if ltb v.prev_min_timestamp v.min_timestamp
          && try_prev v.prev_lock_idx
          && not (is_vacant (t.buckets prev))
        then out prev
        else out cur
  ]
]

-- The loops of an attempt, `capacity - i` rounds left. A range is entered with the first slot, and
-- where `slot % lock_size` is 0.
unfoldable pub attempt_from :
    LinearProbing → Bool → (ℕ → Bool) → (ℕ → Bool) → ℕ → ℕ → ℕ → Victims → Attempt
attempt_from t at_once try_lock try_prev loc zero i v = past
attempt_from t at_once try_lock try_prev loc (suc n) i v =
    let slot = (loc + i) % t.capacity in
    let valid = is_valid (t.buckets slot) in
    let entered = i == 0 || slot % lock_size == 0 in
    let noted = if valid then note_victim t slot v else v in
    let rest =
      attempt_from t at_once try_lock try_prev loc n (i + 1)
        (next_range slot ((loc + (i + 1)) % t.capacity) noted) in
    if entered && not (try_lock (slot / lock_size))
    then retry v
    else if valid && (t.buckets slot).busy
    then retry v
    else if valid && at_once
    then out_direct t try_prev (record v { victim_slot = some slot; prev_victim_slot = none })
    else if leb max_probing_len i
    then out_direct t try_prev noted
    else rest

-- what RETRY resets
abbrev pub restart : Victims → Victims
restart v = record v {
  prev_min_timestamp = no_victims.prev_min_timestamp;
  prev_victim_slot = none;
  prev_lock_idx = no_victims.prev_lock_idx;
}

-- What follows the label out, for a slot.
unfoldable pub take_out : LinearProbing → ℕ → Run (ℕ × ℕ × LinearProbing)
take_out t slot =
    let b = t.buckets slot in
    if b.key == invalid || b.key == tombstone
    then throw evict_key
    else if b.value == no_value
    then throw evict_value
    else ok (b.key, b.value, set_tombstone t slot)

module _ (rand : ℕ → ℕ) (try_lock try_prev : ℕ → ℕ → Bool) where
  -- attempt `c`, with `retry_cnt == c`
  unfoldable pub attempt : LinearProbing → ℕ → Victims → Attempt
  attempt t c v =
      attempt_from t (ltb max_evict_retry c) (try_lock c) (try_prev c) (rand c % t.capacity)
        t.capacity 0 (restart v)

  unfoldable pub evict_from : LinearProbing → ℕ → ℕ → Victims → Option (Run (ℕ × ℕ × LinearProbing))
  evict_from t zero c v = none
  evict_from t (suc fuel) c v = elim (attempt t c v) [
    | retry v' ↦ evict_from t fuel (c + 1) v'
    | out slot ↦ some (take_out t slot)
    | past ↦ some (throw evict_key)
  ]

  -- `Evict`, of a key that is INVALID: the key, its value and the table; none while it still tries
  unfoldable pub evict : LinearProbing → ℕ → Option (Run (ℕ × ℕ × LinearProbing))
  evict t fuel = evict_from t fuel 0 no_victims
