-- ===== src/Driver/Backend/Tests.antt =====
-- Runs of the handlers, and the theorems on them and the metadata at concrete inputs.
use cleancache_rdma.Prelude.{ℕ, ◌≡◌, refl, Bool, true, false, [], arith}
use cleancache_rdma.Prelude.Int.{pos, negsuc}
use cleancache_rdma.Driver.Hashtable
use cleancache_rdma.Driver.Metadata.{Metadata, metadata_add, metadata_contain, metadata_remove}
use cleancache_rdma.Driver.Metadata.Added.{IsKnown}
use cleancache_rdma.Driver.Backend.{Policy, is_known_clean, put_page, get_page, invalidate_page}
use cleancache_rdma.Driver.Backend.Known.{put_page-asks}

abbrev by_key : ℕ → ℕ → ℕ
by_key salt key = key

program : Bool
unfolding metadata_add metadata_contain metadata_remove is_known_clean put_page get_page
    invalidate_page Hashtable.find Hashtable.del Hashtable.get_bkt_id Hashtable.hashtable_get
    Hashtable.hashtable_insert Hashtable.hashtable_remove
program = true

-- a hash table, with nothing in it
abbrev empty : Metadata
empty = record {
  bf = record {
    is_ordinary_bf = true;
    num_hash = 2;
    num_bits = 64;
    bitmap_size = 8;
    bitmap = λ i. 0;
    tmp_bitmap = λ i. 0;
    merging = 0;
  };
  cbf = record { num_hash = 2; num_bits = 8; bitmap_size = 64; byte_bitmap = λ i. 0 };
  ht = record { num_buckets = 3; lock_size = 16; num_locks = 1; hlistheads = λ i. [] };
  type = 4;
}

abbrev policy : Policy
policy = record { exclusive_policy = false; metadata_type = 4; af_enable = false }

abbrev known_page : Metadata
known_page = (put_page by_key policy empty 9 false (pos 0)).meta

-- A clean page that is known is not put again; a read that the server could not answer forgets it.
runs :
    ((get_page by_key policy empty 9 (pos 0)).asked ≡ false)
    × ((put_page by_key policy known_page 9 false (pos 0)).ret ≡ negsuc 2)
    × ((put_page by_key policy known_page 9 true (pos 0)).asked ≡ true)
    × (metadata_contain by_key (get_page by_key policy known_page 9 (pos 1)).meta 9 ≡ false)
    × (metadata_contain by_key (get_page by_key policy known_page 9 (pos 0)).meta 9 ≡ true)
unfolding program
runs = (refl, refl, refl, refl, refl)

empty-IsKnown : IsKnown empty
empty-IsKnown = record { first = omega arith; last = omega arith; bits = omega arith }

asks_after_put :
    ((get_page by_key policy (put_page by_key policy empty 9 false (pos 0)).meta 9 (pos 1)).asked
      ≡ true)
    × ((invalidate_page by_key policy
          (put_page by_key policy empty 9 false (pos 0)).meta
          9
          (pos 1)).asked
        ≡ true)
unfolding program
asks_after_put = put_page-asks by_key policy empty 9 false (pos 0) (pos 1) empty-IsKnown refl refl
