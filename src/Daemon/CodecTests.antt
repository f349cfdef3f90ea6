-- ===== src/Daemon/CodecTests.antt =====
-- Runs of the codecs of Longkey and Imm, and their theorems at concrete inputs.
use cleancache_rdma.Prelude.{◌+◌, ◌*◌, ◌%◌, ◌^◌, ◌≡◌, refl, Bool, true, arith}
use cleancache_rdma.Daemon.Longkey.{
  make_longkey, longkey_to_cid, longkey_to_inode, longkey_to_offset, longkey_roundtrip,
}
use cleancache_rdma.Daemon.Imm.{
  bit_mask, ImmFields, bit_unmask, FitsImm, bit_unmask-bit_mask, msg_read_reply, tx_read_committed,
}

program : Bool
unfolding make_longkey longkey_to_cid longkey_to_inode longkey_to_offset bit_mask bit_unmask
program = true

-- the offset 7 of an odd inode is not read back
odd_inode : longkey_to_offset (make_longkey 3 5 7) ≡ 2 ^ 28 + 7
unfolding program
odd_inode = refl

longkey_roundtrip_example :
    (longkey_to_cid (make_longkey 3 5 7) ≡ 3)
    × (longkey_to_inode (make_longkey 3 5 7) ≡ 5)
    × (longkey_to_offset (make_longkey 3 5 7) ≡ 5 % 2 * 2 ^ 28 + 7)
longkey_roundtrip_example = longkey_roundtrip 3 5 7 (omega arith) (omega arith) (omega arith)

abbrev reply : ImmFields
reply = record { mid = 9; msg = msg_read_reply; tx = tx_read_committed; etc = 1; crc = 200 }

reply_word : bit_mask 9 msg_read_reply tx_read_committed 1 200 ≡ 9990600
unfolding program
reply_word = refl

reply-FitsImm : FitsImm reply
reply-FitsImm = record {
  mid_fits = omega arith;
  msg_fits = omega arith;
  tx_fits = omega arith;
  etc_fits = omega arith;
  crc_fits = omega arith;
}

bit_unmask-bit_mask_example : bit_unmask (bit_mask 9 msg_read_reply tx_read_committed 1 200) ≡ reply
bit_unmask-bit_mask_example = bit_unmask-bit_mask reply reply-FitsImm
