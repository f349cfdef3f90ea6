-- ===== src/Driver/Hashtable.antt =====
-- driver/hashtable.{h,c}: the chained table. A list of nodes is a list of pairs, its head first; -1
-- as a u64 is the value of an absent key. The locks make each list operation one step. The
-- allocation of a node, which the code does not check, succeeds.
pub mod Map
mod Tests
use cleancache_rdma.Prelude.{
  ℕ, ◌+◌, ◌-◌, ◌*◌, ◌/◌, ◌%◌, ◌^◌, Bool, ◌&&◌, Option, none, some, List, [], ◌∷◌, ◌==◌,
  if◌then◌else◌, Array, update,
}

pub record Node : Type 0 where
  pub key : ℕ
  pub value : ℕ

pub record Hashtable : Type 0 where
  pub num_buckets : ℕ
  pub lock_size : ℕ
  pub num_locks : ℕ
  pub hlistheads : Array (List Node)

abbrev pub absent : ℕ
absent = 2 ^ 64 - 1

-- `hashtable_init`, whose three allocations succeed or not
unfoldable pub hashtable_init : Bool → Bool → Bool → ℕ → Option Hashtable
hashtable_init table_ok heads_ok locks_ok num_entries =
    if table_ok && heads_ok && locks_ok
    then some (record {
      num_buckets = num_entries * 75 % 2 ^ 64 / 100;
      lock_size = 16;
      num_locks = num_entries * 75 % 2 ^ 64 / 100 / 16 + 1;
      hlistheads = λ i. [];
    })
    else none

-- the loop of `hashtable_get`
unfoldable pub find : List Node → ℕ → ℕ
find [] key = absent
find (cur ∷ rest) key = if cur.key == key then cur.value else find rest key

-- the loop of `hashtable_remove`: the list without the first node of the key
unfoldable pub del : List Node → ℕ → List Node
del [] key = []
del (cur ∷ rest) key = if cur.key == key then rest else cur ∷ del rest key

module _ (hash_funcs : ℕ → ℕ → ℕ) where
  unfoldable pub get_bkt_id : Hashtable → ℕ → ℕ
  get_bkt_id ht key = hash_funcs 0 key % ht.num_buckets % 2 ^ 32

  unfoldable pub hashtable_get : Hashtable → ℕ → ℕ
  hashtable_get ht key = find (ht.hlistheads (get_bkt_id ht key)) key

  unfoldable pub hashtable_remove : Hashtable → ℕ → ℕ × Hashtable
  hashtable_remove ht key =
      let bkt_id = get_bkt_id ht key in
      let head = ht.hlistheads bkt_id in
      (find head key, record ht { hlistheads = update ht.hlistheads bkt_id (del head key) })

  unfoldable pub hashtable_insert : Hashtable → ℕ → ℕ → Hashtable
  hashtable_insert ht key value =
      let ht' = (hashtable_remove ht key).1 in
      let bkt_id = get_bkt_id ht' key in
      record ht' {
        hlistheads =
            update ht'.hlistheads bkt_id
              (record { key = key; value = value } ∷ ht'.hlistheads bkt_id);
      }
