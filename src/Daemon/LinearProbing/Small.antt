-- ===== src/Daemon/LinearProbing/Small.antt =====
-- Tables no longer than the search: the loop of `Insert` can run out of buckets.
use cleancache_rdma.Prelude.{
  ℕ, zero, suc, ◌+◌, ◌≤◌, ◌<◌, ◌≡◌, refl, ap, ◌∙◌, Bool, false, leb, arith,
}
use cleancache_rdma.Prelude.Int.{pos}
use cleancache_rdma.Daemon.Pair.{no_value, ok}
use cleancache_rdma.Daemon.LinearProbing.{
  LinearProbing, is_vacant, max_probing_len, Victims, no_victims, insert_from, insert,
}
use cleancache_rdma.Daemon.LinearProbing.Placed.{IsPlaced, slot_at}
use cleancache_rdma.Daemon.LinearProbing.Probe.{found, delete-probe}
use cleancache_rdma.Daemon.LinearProbing.View.{Absent, probe-Absent}

slot_at-lt : (t : LinearProbing) (loc i : ℕ) → 0 < t.capacity → slot_at t loc i < t.capacity
slot_at-lt t loc i h = grind arith

insert_from-full :
    (t : LinearProbing) (key value now ev_key : ℕ) (try_lock : ℕ → Bool) (loc n i : ℕ) (v : Victims)
    → 0 < t.capacity
    → n + i ≡ t.capacity
    → t.capacity ≤ max_probing_len
    → ((s : ℕ) → s < t.capacity → is_vacant (t.buckets s) ≡ false)
    → insert_from t key value now ev_key try_lock loc n i v
      ≡ ok (record { ret = pos 0; ev_key = ev_key; ev_value = no_value; table = t })
unfolding insert_from
insert_from-full t key value now ev_key try_lock loc zero i v p total small full = refl
insert_from-full t key value now ev_key try_lock loc (suc n) i v p total small full =
    let used = full (slot_at t loc i) (slot_at-lt t loc i p) in
    let more : leb max_probing_len i ≡ false = ground arith in
    rw (used, more)
      (insert_from-full t key value now ev_key try_lock loc n (i + 1) _ p (omega arith) small full)

-- In a full table of at most 15 buckets, `Insert` of a new key stores nothing, hands nothing back
-- and returns 0, the code of success.
pub insert-full :
    (hash_funcs : ℕ → ℕ → ℕ) (t : LinearProbing) (key value now ev_key : ℕ) (try_lock : ℕ → Bool)
    → IsPlaced hash_funcs t
    → t.capacity ≤ max_probing_len
    → ((s : ℕ) → s < t.capacity → is_vacant (t.buckets s) ≡ false)
    → Absent hash_funcs t key
    → insert hash_funcs t key value now ev_key try_lock
      ≡ ok (record { ret = pos 0; ev_key = ev_key; ev_value = no_value; table = t })
unfolding insert
insert-full hash_funcs t key value now ev_key try_lock p small full absent =
    let missed =
      delete-probe hash_funcs t key
      ∙ ap (found (no_value, t) _) (probe-Absent hash_funcs t key p absent) in
    rw missed (
      insert_from-full t key value now ev_key try_lock _ t.capacity 0 no_victims p.pos (omega arith)
        small full)
