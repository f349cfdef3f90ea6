-- ===== src/Daemon/Longkey.antt =====
-- daemon/Ihash.hpp: the 64-bit key of a page, 4 bits of client, 32 of inode, 28 of page offset.
-- A `uint64_t` sum of fields is taken modulo 2 ^ 64, a `uint32_t` argument or result modulo 2 ^ 32.
use cleancache_rdma.Prelude.{ℕ, ◌+◌, ◌-◌, ◌*◌, ◌/◌, ◌%◌, ◌^◌, ◌<◌, ◌≡◌, bit_and, bit_or, arith}
use cleancache_rdma.Prelude.Fields.{bit_or-high_low, bit_or-low_high, bit_and-mask}

unfoldable pub make_longkey : ℕ → ℕ → ℕ → ℕ
make_longkey cli_id inode index =
    bit_or (bit_or (inode * 2 ^ (32 - 4) % 2 ^ 64) (index % 2 ^ 32)) (cli_id * 2 ^ 60 % 2 ^ 64)

unfoldable pub longkey_to_cid : ℕ → ℕ
longkey_to_cid longkey = longkey / 2 ^ 60 % 2 ^ 32

unfoldable pub longkey_to_inode : ℕ → ℕ
longkey_to_inode longkey = bit_and (longkey / 2 ^ (32 - 4)) (2 ^ 32 - 1) % 2 ^ 32

-- the mask has 29 ones
unfoldable pub longkey_to_offset : ℕ → ℕ
longkey_to_offset longkey = bit_and longkey (2 ^ (28 + 1) - 1) % 2 ^ 32

module _ (cli_id inode index : ℕ) (c : cli_id < 2 ^ 4) (n : inode < 2 ^ 32)
    (x : index < 2 ^ 28) where
  -- Fields of their widths do not overlap.
  pub make_longkey-sum :
      make_longkey cli_id inode index ≡ cli_id * 2 ^ 60 + (inode * 2 ^ 28 + index)
  unfolding make_longkey
  make_longkey-sum =
      let inode_fits : inode * 2 ^ (32 - 4) % 2 ^ 64 ≡ inode * 2 ^ 28 = omega arith in
      let index_fits : index % 2 ^ 32 ≡ index = omega arith in
      let cli_fits : cli_id * 2 ^ 60 % 2 ^ 64 ≡ cli_id * 2 ^ 60 = omega arith in
      rw (inode_fits, index_fits, cli_fits, bit_or-high_low 28 inode index x)
        (bit_or-low_high 60 cli_id (inode * 2 ^ 28 + index) (omega arith))

-- From a key of a 4-bit client, a 32-bit inode and a 28-bit index, the client and the inode are
-- read back; the offset that is read back has the inode's lowest bit above the index.
pub longkey_roundtrip :
    (cli_id inode index : ℕ)
    → cli_id < 2 ^ 4
    → inode < 2 ^ 32
    → index < 2 ^ 28
    → (longkey_to_cid (make_longkey cli_id inode index) ≡ cli_id)
      × (longkey_to_inode (make_longkey cli_id inode index) ≡ inode)
      × (longkey_to_offset (make_longkey cli_id inode index) ≡ inode % 2 * 2 ^ 28 + index)
unfolding longkey_to_cid longkey_to_inode longkey_to_offset
longkey_roundtrip cli_id inode index c n x =
    let key = make_longkey cli_id inode index in
    let sum = make_longkey-sum cli_id inode index c n x in
    (
      omega (arith, sum),
      omega (arith, sum, bit_and-mask 32 (key / 2 ^ 28)),
      omega (arith, sum, bit_and-mask 29 key),
    )
