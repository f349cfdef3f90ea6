-- ===== src/Driver/Main.antt =====
-- driver/main.c: the operations that the kernel calls, with the counters of driver/stats.h that they
-- advance. What `page_count`, `PageLocked` and the inode's number say of a page is an argument.
pub mod Counted
mod Tests
use cleancache_rdma.Prelude.{ℕ, ◌+◌, ◌%◌, ◌^◌, Bool, ◌||◌, not, ltb, ◌==◌, if◌then◌else◌}
use cleancache_rdma.Prelude.Int.{ℤ, pos, negsuc, is_nonzero}
use cleancache_rdma.Driver.AccessFilter.{AccessFilter}
use cleancache_rdma.Driver.Metadata.{Metadata}
use cleancache_rdma.Driver.Backend.{Policy, handle_put_page, get_page, invalidate_page}
use cleancache_rdma.Driver.Longkey.{make_longkey}

pub record Stats : Type 0 where
  pub clean_puts : ℕ
  pub redirtied_puts : ℕ
  pub access_filtered_puts : ℕ
  pub blocked_puts : ℕ
  pub rejected_puts : ℕ
  pub false_positive_gets : ℕ
  pub crc_error_gets : ℕ
  pub valid_invalidates : ℕ

-- `dcc_stats_inc` on a u64
abbrev pub stats_inc : ℕ → ℕ
stats_inc count = (count + 1) % 2 ^ 64

-- a page that does not come from `shrink_page_list`
unfoldable pub is_foreign : ℕ → Bool → ℕ → Bool
is_foreign page_count page_locked i_ino = not (page_count == 0) || not page_locked || ltb i_ino 2

-- the switch of `dcc_put_page`; -3 is `negsuc 2`
unfoldable pub count_put : Stats → ℤ → Stats
count_put s (pos n) = s
count_put s (negsuc n) =
    if n == 2
    then record s { clean_puts = stats_inc s.clean_puts }
    else if n == 3
    then record s { redirtied_puts = stats_inc s.redirtied_puts }
    else if n == 4
    then record s { access_filtered_puts = stats_inc s.access_filtered_puts }
    else if n == 5
    then record s { blocked_puts = stats_inc s.blocked_puts }
    else if n == 6
    then record s { rejected_puts = stats_inc s.rejected_puts }
    else s

-- the tests of `dcc_get_page`
unfoldable pub count_get : Stats → ℤ → Stats
count_get s (pos n) =
    if ltb 0 n then record s { false_positive_gets = stats_inc s.false_positive_gets } else s
count_get s (negsuc n) =
    if n == 3 then record s { crc_error_gets = stats_inc s.crc_error_gets } else s

-- the test of `dcc_invalidate_page`
unfoldable pub count_invalidate : Stats → ℤ → Stats
count_invalidate s ret =
    if not (is_nonzero ret)
    then record s { valid_invalidates = stats_inc s.valid_invalidates }
    else s

-- What an operation leaves: the code that the backend returned, the metadata, the access filter and
-- the counters.
pub record Called : Type 0 where
  pub ret : ℤ
  pub meta : Metadata
  pub af : AccessFilter
  pub stats : Stats

-- `cli_id` is the number of the client at the server of the page; `sent` and `answer` are as in the
-- backend.
module _ (hash_funcs : ℕ → ℕ → ℕ) (golden_ratio_64 cli_id : ℕ) (p : Policy) where
  -- `dcc_put_page`, which returns nothing; its code for a foreign page is 0 here
  unfoldable pub dcc_put_page : AccessFilter → Metadata → Stats → ℕ → ℕ → Bool → Bool → ℤ → Called
  dcc_put_page af meta s ino index foreign dirtied sent =
      let (handled, af') =
        handle_put_page hash_funcs golden_ratio_64 p af meta (make_longkey cli_id ino index) ino
          index dirtied sent in
      if foreign then record { ret = pos 0; meta = meta; af = af; stats = s } else record {
        ret = handled.ret;
        meta = handled.meta;
        af = af';
        stats = count_put s handled.ret;
      }

  unfoldable pub dcc_get_page : AccessFilter → Metadata → Stats → ℕ → ℕ → ℤ → Called
  dcc_get_page af meta s ino index answer =
      let handled = get_page hash_funcs p meta (make_longkey cli_id ino index) answer in
      record { ret = handled.ret; meta = handled.meta; af = af; stats = count_get s handled.ret }

  unfoldable pub dcc_invalidate_page : AccessFilter → Metadata → Stats → ℕ → ℕ → ℤ → Called
  dcc_invalidate_page af meta s ino index answer =
      let handled = invalidate_page hash_funcs p meta (make_longkey cli_id ino index) answer in
      record {
        ret = handled.ret;
        meta = handled.meta;
        af = af;
        stats = count_invalidate s handled.ret;
      }
