-- ===== src/Driver/Longkey/Apart.antt =====
-- Which pages have a key of their own.
use cleancache_rdma.Prelude.{ℕ, ◌+◌, ◌-◌, ◌*◌, ◌/◌, ◌%◌, ◌^◌, ◌<◌, ◌≡◌, ◌↔◌, refl, bit_or, arith}
use cleancache_rdma.Prelude.Fields.{bit_or-high_low, bit_or-low_high}
use cleancache_rdma.Driver.Longkey.{make_longkey}

make_longkey-sum :
    (cli_id inode index : ℕ)
    → cli_id < 2 ^ 4
    → inode < 2 ^ 32
    → index < 2 ^ 28
    → make_longkey cli_id inode index ≡ cli_id * 2 ^ 60 + (inode * 2 ^ 28 + index)
unfolding make_longkey
make_longkey-sum cli_id inode index c n x =
    let inode_fits : inode * 2 ^ (32 - 4) % 2 ^ 64 ≡ inode * 2 ^ 28 = omega arith in
    let cli_fits : cli_id * 2 ^ 60 % 2 ^ 64 ≡ cli_id * 2 ^ 60 = omega arith in
    rw (inode_fits, cli_fits, bit_or-high_low 28 inode index x)
      (bit_or-low_high 60 cli_id (inode * 2 ^ 28 + index) (omega arith))

-- An index of 29 bits reaches into the inode: the page 2 ^ 28 + index of an even inode.
make_longkey-spills :
    (cli_id half index : ℕ)
    → 2 * half + 1 < 2 ^ 32
    → index < 2 ^ 28
    → make_longkey cli_id (2 * half) (2 ^ 28 + index) ≡ make_longkey cli_id (2 * half + 1) index
unfolding make_longkey
make_longkey-spills cli_id half index n x =
    let even : 2 * half * 2 ^ (32 - 4) % 2 ^ 64 ≡ half * 2 ^ 29 = omega arith in
    let odd : (2 * half + 1) * 2 ^ (32 - 4) % 2 ^ 64 ≡ (2 * half + 1) * 2 ^ 28 = omega arith in
    let left : bit_or (half * 2 ^ 29) (2 ^ 28 + index) ≡ half * 2 ^ 29 + (2 ^ 28 + index) =
      bit_or-high_low 29 half (2 ^ 28 + index) (omega arith) in
    let right : bit_or ((2 * half + 1) * 2 ^ 28) index ≡ (2 * half + 1) * 2 ^ 28 + index =
      bit_or-high_low 28 (2 * half + 1) index x in
    let same : half * 2 ^ 29 + (2 ^ 28 + index) ≡ (2 * half + 1) * 2 ^ 28 + index = omega arith in
    rw (even, odd, left, right, same) refl

-- Pages of 4-bit clients and 32-bit inodes have keys of their own when their indices are below 2 ^ 28,
-- which a file of less than a terabyte has; behind it they have not: the page 2 ^ 28 + index of an even
-- inode has the key of the page index of the next inode.
pub make_longkey-apart :
    (cli_id inode index cli_id' inode' index' : ℕ)
    → cli_id < 2 ^ 4
    → cli_id' < 2 ^ 4
    → inode < 2 ^ 32
    → inode' < 2 ^ 32
    → index < 2 ^ 28
    → index' < 2 ^ 28
    → ((make_longkey cli_id inode index ≡ make_longkey cli_id' inode' index')
        ↔ ((cli_id ≡ cli_id') × (inode ≡ inode') × (index ≡ index')))
      × (make_longkey cli_id (2 * (inode / 2)) (2 ^ 28 + index)
          ≡ make_longkey cli_id (2 * (inode / 2) + 1) index)
make_longkey-apart cli_id inode index cli_id' inode' index' c c' n n' x x' =
    let a = make_longkey-sum cli_id inode index c n x in
    let b = make_longkey-sum cli_id' inode' index' c' n' x' in
    (
      (
        λ e. (omega (arith, a, b, e), omega (arith, a, b, e), omega (arith, a, b, e)),
        λ (p, q, r). rw (p, q, r) refl,
      ),
      make_longkey-spills cli_id (inode / 2) index (omega (arith, n)) x,
    )
