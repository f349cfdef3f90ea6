-- ===== src/Driver/Main/Counted.antt =====
-- What the counters of puts say of what the backend did.
use cleancache_rdma.Prelude.{
  ℕ, ◌≡◌, ◌∙◌, sym, ◌==◌, ◌||◌, ◌⊎◌, refl, Bool, true, false, not, ◌&&◌, inl, inr, Bool-cases,
  if◌then◌else◌,
}
use cleancache_rdma.Prelude.Int.{ℤ, pos, negsuc, is_nonzero}
use cleancache_rdma.Driver.AccessFilter.{AccessFilter, af_upsert}
use cleancache_rdma.Driver.Metadata.{Metadata, metadata_contain}
use cleancache_rdma.Driver.Backend.{Policy, is_known_clean, put_page, handle_put_page}
use cleancache_rdma.Driver.Main.{Stats, stats_inc, count_put, dcc_put_page}
use cleancache_rdma.Driver.Longkey.{make_longkey}

module _ (hash_funcs : ℕ → ℕ → ℕ) where
  -- the counter that a put advances behind the access filter; the client's metadata says whether the
  -- server has the page, and takes it for known where there is none
  abbrev pub behind_filter : Policy → Metadata → ℕ → Bool → ℤ → Stats → Stats
  behind_filter p meta key dirtied sent s =
      if not p.exclusive_policy
        && ((p.metadata_type == 0 || metadata_contain hash_funcs meta key) && not dirtied)
      then record s { clean_puts = stats_inc s.clean_puts }
      else if is_nonzero sent
      then record s { blocked_puts = stats_inc s.blocked_puts }
      else s

  known_clean :
      (p : Policy) (meta : Metadata) (key : ℕ) (dirtied : Bool)
      → is_known_clean hash_funcs p meta key dirtied ≡ (
          not p.exclusive_policy
          && ((p.metadata_type == 0 || metadata_contain hash_funcs meta key) && not dirtied))
  unfolding is_known_clean
  known_clean p meta key dirtied = elim (Bool-cases p.exclusive_policy) [
    | inl x ↦ rw x refl
    | inr x ↦ elim (Bool-cases (p.metadata_type == 0)) [
      | inl z ↦ rw (x, z) refl
      | inr z ↦ rw (x, z) refl
    ]
  ]

  count_sent :
      (p : Policy) (meta : Metadata) (key : ℕ) (dirtied : Bool) (sent : ℤ) (s : Stats)
      → (sent ≡ pos 0) ⊎ (sent ≡ negsuc 5)
      → count_put s (put_page hash_funcs p meta key dirtied sent).ret
        ≡ behind_filter p meta key dirtied sent s
  unfolding count_put put_page
  count_sent p meta key dirtied sent s codes =
      let known = known_clean p meta key dirtied in
      elim (Bool-cases (is_known_clean hash_funcs p meta key dirtied)) [
        | inl k ↦ rw (k, sym known ∙ k) refl
        | inr k ↦ elim codes [
          | inl e ↦ rw (k, sym known ∙ k, e) refl
          | inr e ↦ rw (k, sym known ∙ k, e) refl
        ]
      ]

  handled_count :
      (g : ℕ) (p : Policy) (af : AccessFilter) (meta : Metadata) (key ino index : ℕ)
      (dirtied : Bool) (sent : ℤ) (s : Stats)
      → (sent ≡ pos 0) ⊎ (sent ≡ negsuc 5)
      → count_put s (handle_put_page hash_funcs g p af meta key ino index dirtied sent).0.ret ≡ (
          if p.af_enable && not (af_upsert g af ino index).0
          then record s { access_filtered_puts = stats_inc s.access_filtered_puts }
          else behind_filter p meta key dirtied sent s)
  unfolding count_put handle_put_page put_page is_known_clean
  handled_count g p af meta key ino index dirtied sent s codes =
      let counted = count_sent p meta key dirtied sent s codes in
      elim (Bool-cases p.af_enable) [
        | inl a ↦ elim (Bool-cases (af_upsert g af ino index).0) [
          | inl u ↦ rw (a, u) counted
          | inr u ↦ rw (a, u) refl
        ]
        | inr a ↦ rw a counted
      ]

  -- When `dcc_rdma_send_page` returns 0 or -6, which are its codes, a put advances one counter at
  -- most, modulo 2^64: none for a foreign page, else that of filtered puts when the access filter
  -- turns the page away, else that of clean puts when the page is clean, the policy is not exclusive,
  -- and the client's metadata has its key or is off, else that of blocked puts when the send buffer
  -- refuses it. The counters of redirtied and of rejected puts never advance.
  pub dcc_put_page-counts :
      (golden_ratio_64 cli_id : ℕ) (p : Policy) (af : AccessFilter) (meta : Metadata) (s : Stats)
      (ino index : ℕ) (foreign dirtied : Bool) (sent : ℤ)
      → (sent ≡ pos 0) ⊎ (sent ≡ negsuc 5)
      → (dcc_put_page hash_funcs golden_ratio_64 cli_id p af meta s ino index foreign dirtied
          sent).stats
        ≡ (if foreign
            then s
            else if p.af_enable && not (af_upsert golden_ratio_64 af ino index).0
            then record s { access_filtered_puts = stats_inc s.access_filtered_puts }
            else behind_filter p meta (make_longkey cli_id ino index) dirtied sent s)
  unfolding dcc_put_page
  dcc_put_page-counts g cli_id p af meta s ino index true dirtied sent codes = refl
  dcc_put_page-counts g cli_id p af meta s ino index false dirtied sent codes =
      handled_count g p af meta (make_longkey cli_id ino index) ino index dirtied sent s codes
