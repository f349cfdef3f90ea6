-- ===== src/Daemon/LinearProbing/Tests.antt =====
-- Runs of the table, and its theorems at concrete inputs.
use cleancache_rdma.Prelude.{
  ℕ, ◌+◌, ◌*◌, ◌≡◌, refl, Bool, true, false, Option, none, some, ltb, ◌==◌, if◌then◌else◌, ◌-◌, ◌^◌,
  arith,
}
use cleancache_rdma.Prelude.Int.{ℤ, pos, negsuc}
use cleancache_rdma.Daemon.Pair.{Run, ok, throw}
use cleancache_rdma.Daemon.LinearProbing.{
  LinearProbing, new, empty_bucket, valid_from, utilization, set_bucket, set_tombstone, touch, flag,
  Inserted, coll_evict, evict_or_refuse, note_victim, next_range, collide_cur, collide_prev,
  collide, insert_from, insert, delete_from, delete, get_from, get, get_with_flag_from,
  get_with_flag,
}
use cleancache_rdma.Daemon.LinearProbing.Probe.{probe_from, probe}
use cleancache_rdma.Daemon.LinearProbing.Placed.{IsPlaced, new-IsPlaced}
use cleancache_rdma.Daemon.LinearProbing.View.{view}
use cleancache_rdma.Daemon.LinearProbing.Store.{
  value_of, Same, Without, get_with_flag_lem, delete_lem,
}
use cleancache_rdma.Daemon.LinearProbing.Effect.{Effect, insert-Effect}
use cleancache_rdma.Daemon.LinearProbing.Small.{insert-full}
use cleancache_rdma.Daemon.LinearProbing.Evict.{
  out_direct, attempt_from, take_out, attempt, evict_from, evict,
}
use cleancache_rdma.Daemon.LinearProbing.Attempts.{IsLucky}
use cleancache_rdma.Daemon.LinearProbing.Evicted.{Taken, HasValues, evict-Taken}

abbrev by_key : ℕ → ℕ → ℕ
by_key salt key = key

abbrev free_locks : ℕ → Bool
free_locks idx = true

program : Bool
unfolding new valid_from utilization set_bucket set_tombstone touch flag coll_evict evict_or_refuse
    note_victim next_range collide_cur collide_prev collide insert_from insert delete_from delete
    get_from get get_with_flag_from get_with_flag probe_from probe view out_direct attempt_from
    take_out attempt evict_from evict
program = true

abbrev table_of : Run Inserted → LinearProbing
table_of (ok r) = r.table
table_of (throw e) = new 0

abbrev store : LinearProbing → ℕ → ℕ → ℕ → Run Inserted
store t key value now = insert by_key t key value now 0 free_locks

-- the keys 0, 32, 64, … stand in the first 16 slots, the one in slot 3 being the oldest
abbrev crowded : Bool → LinearProbing
crowded busy = record {
  capacity = 32;
  buckets = λ s. record {
    key = if ltb s 16 then s * 32 else 2 ^ 64 - 1;
    value = s + 100;
    timestamp = if s == 3 then 1 else s + 7;
    busy = busy;
  };
}

abbrev answer : Run Inserted → Option (ℤ × ℕ × ℕ)
answer (ok r) = some (r.ret, r.ev_key, r.ev_value)
answer (throw e) = none

-- With all 16 slots taken, the next key takes the place of the oldest one.
evicts_oldest : answer (store (crowded false) 1024 9 50) ≡ some (pos 0, 96, 103)
unfolding program
evicts_oldest = refl

-- A busy victim is left alone.
busy_victim : answer (store (crowded true) 1024 9 50) ≡ some (negsuc 0, 1024, 9)
unfolding program
busy_victim = refl

updates : answer (store (crowded false) 64 9 50) ≡ some (pos 0, 0, 102)
unfolding program
updates = refl

counts : utilization (crowded false) ≡ 16
unfolding program
counts = refl

empty-IsPlaced : IsPlaced by_key (new 32)
empty-IsPlaced = new-IsPlaced by_key 32 (omega arith)

insert-Effect_example : Effect by_key (new 32) 5 77 0 (store (new 32) 5 77 1)
unfolding new
insert-Effect_example =
    insert-Effect by_key (new 32) 5 77 1 0 free_locks empty-IsPlaced (omega arith) (omega arith)

abbrev one : LinearProbing
one = table_of (store (new 32) 5 77 1)

one-IsPlaced : IsPlaced by_key one
one-IsPlaced = placed_of insert-Effect_example
  where
    placed_of : {r : Run Inserted} → Effect by_key (new 32) 5 77 0 r → IsPlaced by_key (table_of r)
    placed_of (Effect.removed old e w) = w.placed
    placed_of (Effect.stored p same reads) = p
    placed_of (Effect.replaced victim old k ne e p same reads) = p
    placed_of (Effect.kept_out w) = w.placed

get_with_flag_lem_example :
    ((get_with_flag by_key one 5 true 9).0 ≡ value_of (view by_key one 5))
    × Same by_key one (get_with_flag by_key one 5 true 9).1
get_with_flag_lem_example = get_with_flag_lem by_key one 5 true 9 one-IsPlaced (omega arith)

delete_lem_example :
    ((delete by_key one 5).0 ≡ value_of (view by_key one 5))
    × Without by_key one 5 (delete by_key one 5).1
delete_lem_example = delete_lem by_key one 5 one-IsPlaced (omega arith)

-- One bucket, taken by key 5: key 6 is lost.
abbrev single : LinearProbing
single = record {
  capacity = 1;
  buckets = λ s. record { key = 5; value = 77; timestamp = 1; busy = false };
}

single-IsPlaced : IsPlaced by_key single
single-IsPlaced = record {
  pos = omega arith;
  reach = λ s b k. record {
    steps = 0;
    within = omega arith;
    inside = omega arith;
    arrives = omega arith;
    passes = λ j h. absurd (omega arith);
  };
  unique = λ s s' b b' k e. omega arith;
}

insert-full_example :
    store single 6 88 2 ≡ ok (record { ret = pos 0; ev_key = 0; ev_value = 0; table = single })
insert-full_example =
    insert-full by_key single 6 88 2 0 free_locks single-IsPlaced (omega arith) (λ s b. refl)
      (λ s b. omega arith)

-- One key in a table of 32 buckets.
abbrev lone : LinearProbing
lone = record {
  capacity = 32;
  buckets = λ s.
      if s == 5 then record { key = 5; value = 77; timestamp = 1; busy = false } else empty_bucket;
}

lone-IsPlaced : IsPlaced by_key lone
lone-IsPlaced = record {
  pos = omega arith;
  reach = λ s b k. record {
    steps = 0;
    within = omega arith;
    inside = omega arith;
    arrives = ground arith;
    passes = λ j h. absurd (omega arith);
  };
  unique = λ s s' b b' k e. ground arith;
}

lone-HasValues : HasValues lone
lone-HasValues s live = ground arith

-- attempt 3 draws bucket 0, the first three find nothing
abbrev draws : ℕ → ℕ
draws c = if c == 3 then 0 else 10

abbrev open_locks : ℕ → ℕ → Bool
open_locks c idx = true

lone-IsLucky : IsLucky draws open_locks lone 3
lone-IsLucky = record {
  late = omega arith;
  unlocked = λ idx. refl;
  idle = λ s b. ground arith;
  offset = 5;
  near = omega arith;
  valid = refl;
}

abbrev evicted_pair : Option (Run (ℕ × ℕ × LinearProbing)) → Option (ℕ × ℕ)
evicted_pair (some (ok (key, value, t))) = some (key, value)
evicted_pair (some (throw e)) = none
evicted_pair none = none

evicts_lone :
    (evicted_pair (evict draws open_locks open_locks lone 3) ≡ none)
    × (evicted_pair (evict draws open_locks open_locks lone 4) ≡ some (5, 77))
unfolding program
evicts_lone = (refl, refl)

evict-Taken_example : Taken by_key lone (evict draws open_locks open_locks lone 4)
evict-Taken_example =
    evict-Taken by_key draws open_locks open_locks lone 4 3 lone-IsPlaced lone-HasValues
      (omega arith) lone-IsLucky (omega arith)
