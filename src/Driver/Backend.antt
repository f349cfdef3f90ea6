-- ===== src/Driver/Backend.antt =====
-- driver/backend.c: the handlers of a page that is put, asked for or invalidated. `sent`, `answer`
-- are what `dcc_rdma_send_page`, `dcc_rdma_write_msg` and `dcc_rdma_write_msg2` return; a page's
-- dirty mark is an argument. A result comes with the metadata, and whether the server was asked.
pub mod Known
mod Tests
use cleancache_rdma.Prelude.{ℕ, Bool, true, false, not, ◌&&◌, ◌||◌, ◌==◌, if◌then◌else◌}
use cleancache_rdma.Prelude.Int.{ℤ, pos, negsuc, is_nonzero}
use cleancache_rdma.Driver.AccessFilter.{AccessFilter, af_upsert}
use cleancache_rdma.Driver.Metadata.{Metadata, metadata_add, metadata_contain, metadata_remove}

pub record Handled : Type 0 where
  pub ret : ℤ
  pub asked : Bool
  pub meta : Metadata

-- the module's parameters
pub record Policy : Type 0 where
  pub exclusive_policy : Bool
  pub metadata_type : ℕ
  pub af_enable : Bool

module _ (hash_funcs : ℕ → ℕ → ℕ) where
  -- a page that the server has and that is clean need not be put
  unfoldable pub is_known_clean : Policy → Metadata → ℕ → Bool → Bool
  is_known_clean p meta key dirtied =
      not p.exclusive_policy
      && (if p.metadata_type == 0 then true else metadata_contain hash_funcs meta key)
      && not dirtied

  -- `__handle_twosided_put_page`
  unfoldable pub put_page : Policy → Metadata → ℕ → Bool → ℤ → Handled
  put_page p meta key dirtied sent =
      if is_known_clean p meta key dirtied
      then record { ret = negsuc 2; asked = false; meta = meta }
      else record {
        ret = sent;
        asked = true;
        meta =
            if not (p.metadata_type == 0) && not (is_nonzero sent)
            then metadata_add hash_funcs meta key
            else meta;
      }

  -- `dcc_handle_put_page`, with the access filter that the page has to pass
  unfoldable pub handle_put_page :
      ℕ → Policy → AccessFilter → Metadata → ℕ → ℕ → ℕ → Bool → ℤ → Handled × AccessFilter
  handle_put_page golden_ratio_64 p af meta key ino index dirtied sent =
      let (passed, af') = af_upsert golden_ratio_64 af ino index in
      if not p.af_enable
      then (put_page p meta key dirtied sent, af)
      else if passed
      then (put_page p meta key dirtied sent, af')
      else (record { ret = negsuc 4; asked = false; meta = meta }, af')

  -- `__handle_twosided_get_page`
  unfoldable pub get_page : Policy → Metadata → ℕ → ℤ → Handled
  get_page p meta key answer =
      if not (p.metadata_type == 0) && not (metadata_contain hash_funcs meta key)
      then record { ret = negsuc 0; asked = false; meta = meta }
      else record {
        ret = answer;
        asked = true;
        meta =
            if not (p.metadata_type == 0) && (p.exclusive_policy || is_nonzero answer)
            then (metadata_remove hash_funcs meta key).1
            else meta;
      }

  -- `__handle_twosided_invalidate_page`
  unfoldable pub invalidate_page : Policy → Metadata → ℕ → ℤ → Handled
  invalidate_page p meta key answer =
      if not (p.metadata_type == 0) && not (metadata_contain hash_funcs meta key)
      then record { ret = negsuc 0; asked = false; meta = meta }
      else record {
        ret = answer;
        asked = true;
        meta = if not (p.metadata_type == 0) then (metadata_remove hash_funcs meta key).1 else meta;
      }
