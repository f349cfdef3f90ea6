-- ===== src/Daemon/Imm.antt =====
-- daemon/rdma.hpp (and driver/rdma.h, the same text): the 32 bits of immediate data of a message,
-- 12 of message number, 4 of message type, 4 of transaction state, 4 of flags, 8 of checksum, and
-- the places of a queue's metadata in the region that the peers share.
use cleancache_rdma.Prelude.{
  ℕ, ◌+◌, ◌-◌, ◌*◌, ◌/◌, ◌%◌, ◌^◌, ◌<◌, ◌≡◌, bit_and, bit_or, ◌==◌, if◌then◌else◌, arith,
}
use cleancache_rdma.Prelude.Fields.{bit_or-sum, bit_and-mask}

-- enum msg_type
abbrev pub msg_write : ℕ
msg_write = 3

abbrev pub msg_write_reply : ℕ
msg_write_reply = 4

abbrev pub msg_read : ℕ
msg_read = 7

abbrev pub msg_read_reply : ℕ
msg_read_reply = 8

abbrev pub msg_inv_page : ℕ
msg_inv_page = 9

abbrev pub msg_inv_page_reply : ℕ
msg_inv_page_reply = 10

-- enum tx_state
abbrev pub tx_write_committed : ℕ
tx_write_committed = 3

abbrev pub tx_read_committed : ℕ
tx_read_committed = 7

abbrev pub tx_read_aborted : ℕ
tx_read_aborted = 8

abbrev pub tx_inv_page_commited : ℕ
tx_inv_page_commited = 10

abbrev pub tx_inv_page_aborted : ℕ
tx_inv_page_aborted = 11

-- `(uint32_t) x << k`
abbrev pub shift_32 : ℕ → ℕ → ℕ
shift_32 x k = x % 2 ^ 32 * 2 ^ k % 2 ^ 32

unfoldable pub bit_mask : ℕ → ℕ → ℕ → ℕ → ℕ → ℕ
bit_mask mid msg tx etc crc =
    bit_or
      (bit_or (bit_or (bit_or (shift_32 mid 20) (shift_32 msg 16)) (shift_32 tx 12))
        (shift_32 etc 8))
      (crc % 2 ^ 32)

pub record ImmFields : Type 0 where
  pub mid : ℕ
  pub msg : ℕ
  pub tx : ℕ
  pub etc : ℕ
  pub crc : ℕ

-- The null arguments for `etc` and `crc` leave those fields unread.
unfoldable pub bit_unmask : ℕ → ImmFields
bit_unmask target = record {
  mid = bit_and (target / 2 ^ 20) (2 ^ 12 - 1);
  msg = bit_and (target / 2 ^ 16) (2 ^ 4 - 1);
  tx = bit_and (target / 2 ^ 12) (2 ^ 4 - 1);
  etc = bit_and (target / 2 ^ 8) (2 ^ 4 - 1);
  crc = bit_and target (2 ^ 8 - 1);
}

-- every field within its width
pub record FitsImm (f : ImmFields) : Type 0 where
  pub mid_fits : f.mid < 2 ^ 12
  pub msg_fits : f.msg < 2 ^ 4
  pub tx_fits : f.tx < 2 ^ 4
  pub etc_fits : f.etc < 2 ^ 4
  pub crc_fits : f.crc < 2 ^ 8

pub bit_mask-sum :
    (f : ImmFields)
    → FitsImm f
    → bit_mask f.mid f.msg f.tx f.etc f.crc
      ≡ f.mid * 2 ^ 20 + f.msg * 2 ^ 16 + f.tx * 2 ^ 12 + f.etc * 2 ^ 8 + f.crc
unfolding bit_mask
bit_mask-sum f h =
    let a = f.mid * 2 ^ 20 in
    let b = f.msg * 2 ^ 16 in
    let c = f.tx * 2 ^ 12 in
    let d = f.etc * 2 ^ 8 in
    let a_fits : shift_32 f.mid 20 ≡ a = omega arith in
    let b_fits : shift_32 f.msg 16 ≡ b = omega arith in
    let c_fits : shift_32 f.tx 12 ≡ c = omega arith in
    let d_fits : shift_32 f.etc 8 ≡ d = omega arith in
    let crc_fits : f.crc % 2 ^ 32 ≡ f.crc = omega arith in
    rw
      (
        a_fits,
        b_fits,
        c_fits,
        d_fits,
        crc_fits,
        bit_or-sum 20 a b (omega arith) (omega arith),
        bit_or-sum 16 (a + b) c (omega arith) (omega arith),
        bit_or-sum 12 (a + b + c) d (omega arith) (omega arith),
      )
      (bit_or-sum 8 (a + b + c + d) f.crc (omega arith) (omega arith))

-- `bit_unmask` gives back the fields that `bit_mask` was given, each within its width.
pub bit_unmask-bit_mask :
    (f : ImmFields) → FitsImm f → bit_unmask (bit_mask f.mid f.msg f.tx f.etc f.crc) ≡ f
unfolding bit_unmask
bit_unmask-bit_mask f h =
    let w = bit_mask f.mid f.msg f.tx f.etc f.crc in
    ground (
      arith,
      bit_mask-sum f h,
      bit_and-mask 12 (w / 2 ^ 20),
      bit_and-mask 4 (w / 2 ^ 16),
      bit_and-mask 4 (w / 2 ^ 12),
      bit_and-mask 4 (w / 2 ^ 8),
      bit_and-mask 8 w,
    )

-- struct dcc_rdma_config_t, the part that lays out the metadata
pub record RdmaConfig : Type 0 where
  pub num_data_qps : ℕ
  pub num_msgs : ℕ
  pub get_metadata_size : ℕ
  pub inv_metadata_size : ℕ
  pub metadata_size : ℕ

-- `KEY_META_REGION`, and -1 for another type of message
unfoldable pub key_meta_region : RdmaConfig → ℕ → ℕ → ℕ → ℕ → ℕ
key_meta_region c addr qid mid type =
    if type == msg_read
    then (addr + c.metadata_size * qid) % 2 ^ 64
    else if type == msg_inv_page
    then (addr + c.metadata_size * qid + c.get_metadata_size + mid * 8) % 2 ^ 64
    else 2 ^ 64 - 1

unfoldable pub addr_meta_region : RdmaConfig → ℕ → ℕ → ℕ → ℕ
addr_meta_region c addr qid mid = (key_meta_region c addr qid mid msg_read + 8) % 2 ^ 64
