-- ===== src/Driver/Metadata.antt =====
-- driver/metadata.h: what the client knows of the pages on a server, in one of three structures.
-- `type` is the number of the kind. The key's bytes are the `u64` key itself.
pub mod Added
use cleancache_rdma.Prelude.{ℕ, ◌||◌, Bool, true, false, not, ◌==◌, if◌then◌else◌}
use cleancache_rdma.Driver.BloomFilter.{
  BloomFilter, bf_add, bf_might_contain, bf_blocking, bf_unblocking,
}
use cleancache_rdma.Driver.CountingFilter.{CountingFilter, cbf_add, cbf_might_contain, cbf_remove}
use cleancache_rdma.Driver.Hashtable.{
  Hashtable, absent, hashtable_insert, hashtable_get, hashtable_remove,
}

abbrev pub coop_bf : ℕ
coop_bf = 1

abbrev pub ordinary_bf : ℕ
ordinary_bf = 2

abbrev pub counting_bf : ℕ
counting_bf = 3

abbrev pub hash_table : ℕ
hash_table = 4

pub record Metadata : Type 0 where
  pub bf : BloomFilter
  pub cbf : CountingFilter
  pub ht : Hashtable
  pub type : ℕ

-- the case labels `COOP_BF` and `ORDINARY_BF`
abbrev pub is_bf : ℕ → Bool
is_bf type = type == coop_bf || type == ordinary_bf

unfoldable pub metadata_blocking : Metadata → Metadata
metadata_blocking m = if m.type == coop_bf then record m { bf = bf_blocking m.bf } else m

unfoldable pub metadata_unblocking : Metadata → Metadata
metadata_unblocking m = if m.type == coop_bf then record m { bf = bf_unblocking m.bf } else m

module _ (hash_funcs : ℕ → ℕ → ℕ) where
  unfoldable pub metadata_add : Metadata → ℕ → Metadata
  metadata_add m key =
      if is_bf m.type
      then record m { bf = bf_add hash_funcs m.bf key }
      else if m.type == counting_bf
      then record m { cbf = cbf_add hash_funcs m.cbf key }
      else if m.type == hash_table
      then record m { ht = hashtable_insert hash_funcs m.ht key 0 }
      else m

  unfoldable pub metadata_contain : Metadata → ℕ → Bool
  metadata_contain m key =
      if is_bf m.type
      then bf_might_contain hash_funcs m.bf key
      else if m.type == counting_bf
      then cbf_might_contain hash_funcs m.cbf key
      else if m.type == hash_table
      then not (hashtable_get hash_funcs m.ht key == absent)
      else false

  unfoldable pub metadata_remove : Metadata → ℕ → Bool × Metadata
  metadata_remove m key =
      let (removed, cbf) = cbf_remove hash_funcs m.cbf key in
      let (value, ht) = hashtable_remove hash_funcs m.ht key in
      if is_bf m.type
      then (true, m)
      else if m.type == counting_bf
      then (removed, record m { cbf = cbf })
      else if m.type == hash_table
      then (not (value == absent), record m { ht = ht })
      else (false, m)
