-- ===== src/Driver/Backend/Known.antt =====
-- A put that is followed by a get or an invalidation.
use cleancache_rdma.Prelude.{ℕ, ◌≡◌, sym, ◌∙◌, Bool, true, false, ◌==◌, Bool-cases, inl, inr, arith}
use cleancache_rdma.Prelude.Int.{ℤ, pos, negsuc}
use cleancache_rdma.Driver.Metadata.{Metadata, metadata_add, metadata_contain}
use cleancache_rdma.Driver.Metadata.Added.{IsKnown, metadata_add-contain}
use cleancache_rdma.Driver.Backend.{Policy, is_known_clean, put_page, get_page, invalidate_page}

module _ (hash_funcs : ℕ → ℕ → ℕ) where
  put_page-clean :
      (p : Policy) (meta : Metadata) (key : ℕ) (dirtied : Bool) (sent : ℤ)
      → is_known_clean hash_funcs p meta key dirtied ≡ true
      → (put_page hash_funcs p meta key dirtied sent).ret ≡ negsuc 2
  unfolding put_page
  put_page-clean p meta key dirtied sent e = rw e

  put_page-sent :
      (p : Policy) (meta : Metadata) (key : ℕ) (dirtied : Bool) (sent : ℤ)
      → is_known_clean hash_funcs p meta key dirtied ≡ false
      → (put_page hash_funcs p meta key dirtied sent).ret ≡ sent
  unfolding put_page
  put_page-sent p meta key dirtied sent e = rw e

  put_page-added :
      (p : Policy) (meta : Metadata) (key : ℕ) (dirtied : Bool)
      → is_known_clean hash_funcs p meta key dirtied ≡ false
      → (p.metadata_type == 0) ≡ false
      → (put_page hash_funcs p meta key dirtied (pos 0)).meta ≡ metadata_add hash_funcs meta key
  unfolding put_page
  put_page-added p meta key dirtied e on = rw (e, on)

  put_page-contain :
      (p : Policy) (meta : Metadata) (key : ℕ) (dirtied : Bool) (sent : ℤ)
      → IsKnown meta
      → (p.metadata_type == 0) ≡ false
      → (put_page hash_funcs p meta key dirtied sent).ret ≡ pos 0
      → metadata_contain hash_funcs (put_page hash_funcs p meta key dirtied sent).meta key ≡ true
  put_page-contain p meta key dirtied sent known on done =
      elim (Bool-cases (is_known_clean hash_funcs p meta key dirtied)) [
        | inl e ↦ let clean = put_page-clean p meta key dirtied sent e in absurd (ground arith)
        | inr e ↦
            let zero_sent : sent ≡ pos 0 = sym (put_page-sent p meta key dirtied sent e) ∙ done in
            rw (zero_sent, put_page-added p meta key dirtied e on)
              (metadata_add-contain hash_funcs meta key known)
      ]

  contained-asks :
      (p : Policy) (meta : Metadata) (key : ℕ) (answer : ℤ)
      → (p.metadata_type == 0) ≡ false
      → metadata_contain hash_funcs meta key ≡ true
      → ((get_page hash_funcs p meta key answer).asked ≡ true)
        × ((invalidate_page hash_funcs p meta key answer).asked ≡ true)
  unfolding get_page invalidate_page
  contained-asks p meta key answer on h = (rw (on, h), rw (on, h))

  -- After a put that returned 0, with metadata of a known kind whose bit filter has a bit, a get and
  -- an invalidation of the same page ask the server.
  pub put_page-asks :
      (p : Policy) (meta : Metadata) (key : ℕ) (dirtied : Bool) (sent answer : ℤ)
      → IsKnown meta
      → p.metadata_type ≡ meta.type
      → (put_page hash_funcs p meta key dirtied sent).ret ≡ pos 0
      → ((get_page hash_funcs p (put_page hash_funcs p meta key dirtied sent).meta key answer).asked
          ≡ true)
        × ((invalidate_page hash_funcs p
              (put_page hash_funcs p meta key dirtied sent).meta
              key
              answer).asked
            ≡ true)
  put_page-asks p meta key dirtied sent answer known type done =
      let on : (p.metadata_type == 0) ≡ false = ground (arith, known.first) in
      contained-asks p (put_page hash_funcs p meta key dirtied sent).meta key answer on
        (put_page-contain p meta key dirtied sent known on done)
