-- ===== src/Daemon/Pages.antt =====
-- Where the server's pages are, at any time: posted to receive, in the hands of a handler, on a free
-- list of the pool, or stored under a key. This is an abstract view of the state of daemon/rdma.cpp,
-- daemon/kv.cpp and daemon/percpu_pool.cpp, which forgets the order of the lists.
pub mod Counts
pub mod Moves
pub mod Pool
pub mod Tables
pub mod Calls
pub mod Messages
pub mod Buffers
pub mod Evictions
pub mod Dispatch
pub mod Runs
pub mod Lost
pub mod Posted
mod Small
mod Tests
use cleancache_rdma.Prelude.{
  ℕ, ◌+◌, ◌≡◌, ◌⊎◌, Option, none, some, List, [], ◌∷◌, ◌==◌, ◌&&◌, ◌||◌, if◌then◌else◌, Array,
  update,
}
use cleancache_rdma.Daemon.Pair.{invalid, tombstone, no_value}
use cleancache_rdma.Daemon.LinearProbing.{LinearProbing}
use cleancache_rdma.Daemon.LinearProbing.View.{view}

pub record Holding : Type 0 where
  pub posted : List ℕ
  pub hand : List ℕ
  pub free : Array (List ℕ)
  -- by the shard and the key
  pub stored : ℕ → ℕ → Option ℕ

pub data Place : Type 0 where
  in_post : Place
  in_hand : Place
  in_free : ℕ → Place
  under : (shard key : ℕ) → Place

abbrev pub one : ℕ → ℕ → ℕ
one a b = if a == b then 1 else 0

abbrev pub count : ℕ → List ℕ → ℕ
count a [] = 0
count a (b ∷ bs) = one a b + count a bs

abbrev pub count_entry : ℕ → Option ℕ → ℕ
count_entry a none = 0
count_entry a (some b) = one a b

-- how often page `a` is at a place
abbrev pub amount : Holding → ℕ → Place → ℕ
amount h a in_post = count a h.posted
amount h a in_hand = count a h.hand
amount h a (in_free fl) = count a (h.free fl)
amount h a (under shard key) = count_entry a (h.stored shard key)

-- 1 at one place, 0 at the others
abbrev pub at : Place → Place → ℕ
at in_post in_post = 1
at in_hand in_hand = 1
at (in_free i) (in_free j) = one i j
at (under s k) (under s' k') = if s == s' && k == k' then 1 else 0
at p q = 0

-- A page of `all` is in exactly one place, and once there; nothing else is anywhere.
abbrev pub Owned : List ℕ → Holding → Type 0
Owned all h =
    (a : ℕ)
    → ((count a all ≡ 0) × ((p : Place) → amount h a p ≡ 0))
      ⊎ ((count a all ≡ 1) × (q : Place) × ((p : Place) → amount h a p ≡ at q p))

-- Page `x` goes from `p` to `q`.
pub record Moved (h h' : Holding) (x : ℕ) (p q : Place) : Type 0 where
  pub apart : at q p ≡ 0
  pub amounts :
      (a : ℕ) (r : Place)
      → amount h' a r + (if a == x then at p r else 0)
        ≡ amount h a r + (if a == x then at q r else 0)

-- the buffers that are pages; the others receive no data
abbrev pub pages : List ℕ → List ℕ
pages [] = []
pages (a ∷ rest) = if a == no_value then pages rest else a ∷ pages rest

abbrev pub put_entry : (ℕ → ℕ → Option ℕ) → ℕ → ℕ → Option ℕ → ℕ → ℕ → Option ℕ
put_entry stored shard key o s k = if shard == s && key == k then o else stored s k

-- what the tables store: a mark among the keys is none
abbrev pub entries : (ℕ → ℕ → ℕ) → Array LinearProbing → ℕ → ℕ → Option ℕ
entries hash_funcs hashes shard key =
    if key == invalid || key == tombstone then none else view hash_funcs (hashes shard) key
