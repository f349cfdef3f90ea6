-- ===== src/Driver/Longkey.antt =====
-- driver/backend.h: the key of a page at the client, and the server that it belongs to. Unlike the
-- daemon's, this `make_longkey` takes a 64-bit index, and masks nothing.
pub mod Apart
use cleancache_rdma.Prelude.{ℕ, ◌+◌, ◌-◌, ◌*◌, ◌%◌, ◌^◌, bit_or, ◌==◌, if◌then◌else◌}

unfoldable pub make_longkey : ℕ → ℕ → ℕ → ℕ
make_longkey cli_id inode index =
    bit_or (bit_or (inode * 2 ^ (32 - 4) % 2 ^ 64) index) (cli_id * 2 ^ 60 % 2 ^ 64)

-- `golden_ratio_64` is the kernel's GOLDEN_RATIO_64.
unfoldable pub get_backend_id : ℕ → ℕ → ℕ → ℕ → ℕ
get_backend_id golden_ratio_64 num_svrs ino index =
    let key = bit_or (ino * 2 ^ 32 % 2 ^ 64) index in
    if num_svrs == 1 then 0 else key * golden_ratio_64 % 2 ^ 64 % num_svrs
