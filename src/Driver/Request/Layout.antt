-- ===== src/Driver/Request/Layout.antt =====
-- Where the requests write, in the server's metadata region.
use cleancache_rdma.Prelude.{
  ℕ, ◌+◌, ◌*◌, ◌<◌, ◌≤◌, ◌≡◌, ◌⊎◌, inl, inr, refl, arith, ◌==◌, if◌then◌else◌,
}
use cleancache_rdma.Daemon.Imm.{msg_read, msg_inv_page}
use cleancache_rdma.Driver.Request.{default_config, get_metadata_offset, metadata_mr_size}

-- the bytes that a request writes: a key and an address, or a key
abbrev pub size_of : ℕ → ℕ
size_of type = if type == msg_read then 16 else 8

-- a request's queue, number and type
pub record IsRequest (queue_id msg_id type : ℕ) : Type 0 where
  pub queue : queue_id < default_config.num_data_qps
  pub number : msg_id < default_config.num_msgs
  pub known : (type ≡ msg_read) ⊎ (type ≡ msg_inv_page)

offset-read : (q mid : ℕ) → get_metadata_offset default_config q mid msg_read ≡ 4112 * q
unfolding get_metadata_offset default_config
offset-read q mid = refl

offset-inv :
    (q mid : ℕ) → get_metadata_offset default_config q mid msg_inv_page ≡ 4112 * q + 16 + mid * 8
unfolding get_metadata_offset default_config
offset-inv q mid = refl

-- Two requests write apart, or to one place.
abbrev pub Apart : ℕ → ℕ → ℕ → ℕ → Type 0
Apart a size b size' = (a + size ≤ b) ⊎ (b + size' ≤ a)

-- a read and a read, a read and an invalidation, two invalidations
read-read : (q q' : ℕ) → (q ≡ q') ⊎ Apart (4112 * q) 16 (4112 * q') 16
read-read q q' = ground arith

read-inv : (q q' mid : ℕ) → mid < 512 → Apart (4112 * q) 16 (4112 * q' + 16 + mid * 8) 8
read-inv q q' mid lt = ground arith

inv-read : (q q' mid : ℕ) → mid < 512 → Apart (4112 * q + 16 + mid * 8) 8 (4112 * q') 16
inv-read q q' mid lt = ground arith

inv-inv :
    (q q' mid mid' : ℕ)
    → mid < 512
    → mid' < 512
    → ((q ≡ q') × (mid ≡ mid')) ⊎ Apart (4112 * q + 16 + mid * 8) 8 (4112 * q' + 16 + mid' * 8) 8
inv-inv q q' mid mid' lt lt' = ground arith

-- With the default configuration a request writes within the metadata region; and two requests of
-- different queues, of different types, or of different numbers when they invalidate, write to places
-- that do not overlap.
pub get_metadata_offset-Apart :
    (q mid type q' mid' type' : ℕ)
    → IsRequest q mid type
    → IsRequest q' mid' type'
    → (get_metadata_offset default_config q mid type + size_of type
        ≤ metadata_mr_size default_config)
      × (((q ≡ q') × (type ≡ type') × ((type ≡ msg_read) ⊎ (mid ≡ mid')))
          ⊎ Apart
              (get_metadata_offset default_config q mid type)
              (size_of type)
              (get_metadata_offset default_config q' mid' type')
              (size_of type'))
unfolding default_config metadata_mr_size
get_metadata_offset-Apart q mid type q' mid' type' r r' = elim r.known [
  | inl e ↦ elim r'.known [
    | inl e' ↦ rw e (
        rw e' (
          rw (offset-read q mid) (
            rw (offset-read q' mid') (
              omega (arith, r.queue),
              elim (read-read q q') [
                | inl same ↦ inl (same, refl, inl refl)
                | inr apart ↦ inr apart
              ],
            ))))
    | inr e' ↦ rw e (
        rw e' (
          rw (offset-read q mid)
            (rw (offset-inv q' mid') (omega (arith, r.queue), inr (read-inv q q' mid' r'.number)))))
  ]
  | inr e ↦ elim r'.known [
    | inl e' ↦ rw e (
        rw e' (
          rw (offset-inv q mid) (
            rw (offset-read q' mid')
              (omega (arith, r.queue, r.number), inr (inv-read q q' mid r.number)))))
    | inr e' ↦ rw e (
        rw e' (
          rw (offset-inv q mid) (
            rw (offset-inv q' mid') (
              omega (arith, r.queue, r.number),
              elim (inv-inv q q' mid mid' r.number r'.number) [
                | inl same ↦ inl (same.0, refl, inr same.1)
                | inr apart ↦ inr apart
              ],
            ))))
  ]
]
