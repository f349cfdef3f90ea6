-- ===== src/Driver/Hashtable/Tests.antt =====
-- The theorems on the table at concrete inputs.
use cleancache_rdma.Prelude.{ℕ, ◌≡◌, refl, Bool, true, [], ◌==◌, if◌then◌else◌}
use cleancache_rdma.Driver.Hashtable.{
  Hashtable, absent, find, del, get_bkt_id, hashtable_get, hashtable_remove, hashtable_insert,
}
use cleancache_rdma.Driver.Hashtable.Map.{IsUnique, hashtable_remove-removes, hashtable_get-insert}

abbrev by_key : ℕ → ℕ → ℕ
by_key salt key = key

program : Bool
unfolding find del get_bkt_id hashtable_get hashtable_remove hashtable_insert
program = true

abbrev empty : Hashtable
empty = record { num_buckets = 3; lock_size = 16; num_locks = 1; hlistheads = λ i. [] }

-- two keys in one list
abbrev two : Hashtable
two = hashtable_insert by_key (hashtable_insert by_key empty 4 40) 7 70

runs :
    (hashtable_get by_key two 4 ≡ 40)
    × (hashtable_get by_key two 7 ≡ 70)
    × (hashtable_get by_key two 1 ≡ absent)
    × (hashtable_get by_key (hashtable_insert by_key two 4 41) 4 ≡ 41)
unfolding program
runs = (refl, refl, refl, refl)

hashtable_get-insert_example :
    ((k : ℕ)
      → hashtable_get by_key (hashtable_insert by_key two 4 41) k
        ≡ (if 4 == k then 41 else hashtable_get by_key two k))
    × (IsUnique two → IsUnique (hashtable_insert by_key two 4 41))
hashtable_get-insert_example = hashtable_get-insert by_key two 4 41

empty-IsUnique : IsUnique empty
empty-IsUnique i = tt

two-IsUnique : IsUnique two
two-IsUnique =
    (hashtable_get-insert by_key (hashtable_insert by_key empty 4 40) 7 70).1
      ((hashtable_get-insert by_key empty 4 40).1 empty-IsUnique)

hashtable_remove-removes_example :
    ((hashtable_remove by_key two 4).0 ≡ hashtable_get by_key two 4)
    × ((k : ℕ)
        → hashtable_get by_key (hashtable_remove by_key two 4).1 k
          ≡ (if 4 == k then absent else hashtable_get by_key two k))
    × IsUnique (hashtable_remove by_key two 4).1
hashtable_remove-removes_example = hashtable_remove-removes by_key two 4 two-IsUnique
