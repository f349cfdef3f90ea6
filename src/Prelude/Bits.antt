-- ===== src/Prelude/Bits.antt =====
-- Single bits of a word: `x >> k & 1` as a recursion, and what `&`, `|` and `1 << k` do to it.
use Prim.Native.Nat.{
  ℕ, zero, suc, ◌+◌, ◌*◌, ◌/◌, ◌%◌, ◌^◌, ◌≤◌, min, max, bit_and, bit_or, digits, bitwise,
  bit_and-bitwise, bit_or-bitwise,
}
use mathlib.Core.Path.{◌≡◌, refl}
use native.Mathlib.Nat.{pow-suc, one-le-pow}
use native.Mathlib.Omega.{arith}
use cleancache_rdma.Prelude.Tests.{◌==◌, if◌then◌else◌}

-- The fuel of the digit recursion does not matter once it reaches the first number.
module _ (tail : ℕ → ℕ) (digit : ℕ → ℕ → ℕ) where
  fuel_irrelevant :
      (m n x y : ℕ) → x ≤ m → x ≤ n → digits tail digit m x y ≡ digits tail digit n x y
  fuel_irrelevant zero zero x y h k = refl
  fuel_irrelevant zero (suc n) zero y h k = refl
  fuel_irrelevant zero (suc n) (suc x) y h k = absurd (omega arith)
  fuel_irrelevant (suc m) zero zero y h k = refl
  fuel_irrelevant (suc m) zero (suc x) y h k = absurd (omega arith)
  fuel_irrelevant (suc m) (suc n) zero y h k = refl
  fuel_irrelevant (suc m) (suc n) (suc x) y h k =
      rw (fuel_irrelevant m n (suc x / 2) (y / 2) (omega arith) (omega arith))

  lowest_digit :
      (x y : ℕ)
      → bitwise tail digit (suc x) y
        ≡ bitwise tail digit (suc x / 2) (y / 2) * 2 + digit (suc x % 2) (y % 2)
  lowest_digit x y =
      omega (arith, fuel_irrelevant x (suc x / 2) (suc x / 2) (y / 2) (omega arith) (omega arith))

pub bit_or_halves : (x y : ℕ) → bit_or x y ≡ bit_or (x / 2) (y / 2) * 2 + max (x % 2) (y % 2)
bit_or_halves zero y = simp bit_or-bitwise (omega arith)
bit_or_halves (suc x) y = simp bit_or-bitwise (lowest_digit (λ t. t) max x y)

pub bit_and_halves : (x y : ℕ) → bit_and x y ≡ bit_and (x / 2) (y / 2) * 2 + min (x % 2) (y % 2)
bit_and_halves zero y = simp bit_and-bitwise (omega arith)
bit_and_halves (suc x) y = simp bit_and-bitwise (lowest_digit (λ t. 0) min x y)

-- bit k of x
pub bit : ℕ → ℕ → ℕ
bit x zero = x % 2
bit x (suc k) = bit (x / 2) k

pub bit-le : (x k : ℕ) → bit x k ≤ 1
unfolding bit
bit-le x zero = omega arith
bit-le x (suc k) = bit-le (x / 2) k

pub bit-or : (x y k : ℕ) → bit (bit_or x y) k ≡ max (bit x k) (bit y k)
unfolding bit
bit-or x y zero = omega (arith, bit_or_halves x y)
bit-or x y (suc k) =
    let half : bit_or x y / 2 ≡ bit_or (x / 2) (y / 2) = omega (arith, bit_or_halves x y) in
    rw half (bit-or (x / 2) (y / 2) k)

pub bit-zero : (k : ℕ) → bit 0 k ≡ 0
unfolding bit
bit-zero zero = refl
bit-zero (suc k) = bit-zero k

pub bit-pow : (j k : ℕ) → bit (2 ^ j) k ≡ (if j == k then 1 else 0)
unfolding bit
bit-pow zero zero = refl
bit-pow zero (suc k) = ground (arith, bit-zero k)
bit-pow (suc j) zero = ground (arith, pow-suc 2 j)
bit-pow (suc j) (suc k) =
    let half : 2 ^ suc j / 2 ≡ 2 ^ j = omega (arith, pow-suc 2 j) in
    rw half (ground (arith, bit-pow j k))

bit_and-zero_below : (n x : ℕ) → x ≤ n → bit_and x 0 ≡ 0
bit_and-zero_below n zero h = refl
bit_and-zero_below zero (suc x) h = absurd (omega arith)
bit_and-zero_below (suc n) (suc x) h =
    omega (arith, bit_and_halves (suc x) 0, bit_and-zero_below n (suc x / 2) (omega arith))

-- `x & (1 << k)` is the bit in its place.
pub bit_and-pow : (x k : ℕ) → bit_and x (2 ^ k) ≡ bit x k * 2 ^ k
unfolding bit
bit_and-pow x zero =
    omega (arith, bit_and_halves x 1, bit_and-zero_below (x / 2) (x / 2) (omega arith))
bit_and-pow x (suc k) =
    grind (arith, bit_and_halves x (2 ^ suc k), pow-suc 2 k, bit_and-pow (x / 2) k)

-- The test `x & (1 << k)` reads the bit.
pub bit_and-pow_test : (x k : ℕ) → (bit_and x (2 ^ k) == 0) ≡ (bit x k == 0)
bit_and-pow_test x k = grind (arith, bit_and-pow x k, bit-le x k, one-le-pow k 2)
