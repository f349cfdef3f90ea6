-- ===== src/Prelude/Fields.antt =====
-- Words that are put together of fields: `|` of disjoint fields is their sum, `&` with a mask of
-- low ones is a remainder.
use Prim.Native.Nat.{ℕ, zero, suc, ◌+◌, ◌-◌, ◌*◌, ◌/◌, ◌%◌, ◌^◌, ◌<◌, bit_and, bit_or}
use mathlib.Core.Path.{◌≡◌, ap, ◌∙◌}
use native.Mathlib.Nat.{pow-suc, one-le-pow}
use native.Mathlib.Omega.{arith}
use cleancache_rdma.Prelude.Bits.{bit_or_halves, bit_and_halves}

bit_or-zero_right : (n x : ℕ) → x < n → bit_or x 0 ≡ x
bit_or-zero_right zero x h = absurd (omega arith)
bit_or-zero_right (suc n) zero h = omega (arith, bit_or_halves 0 0)
bit_or-zero_right (suc n) (suc x) h =
    omega (arith, bit_or_halves (suc x) 0, bit_or-zero_right n (suc x / 2) (omega arith))

bit_or-zero_left : (n x : ℕ) → x < n → bit_or 0 x ≡ x
bit_or-zero_left zero x h = absurd (omega arith)
bit_or-zero_left (suc n) zero h = omega (arith, bit_or_halves 0 0)
bit_or-zero_left (suc n) (suc x) h =
    omega (arith, bit_or_halves 0 (suc x), bit_or-zero_left n (suc x / 2) (omega arith))

bit_and-zero_right : (n x : ℕ) → x < n → bit_and x 0 ≡ 0
bit_and-zero_right zero x h = absurd (omega arith)
bit_and-zero_right (suc n) zero h = omega (arith, bit_and_halves 0 0)
bit_and-zero_right (suc n) (suc x) h =
    omega (arith, bit_and_halves (suc x) 0, bit_and-zero_right n (suc x / 2) (omega arith))

times_pow-suc : (q k : ℕ) → q * 2 ^ suc k ≡ 2 * (q * 2 ^ k)
times_pow-suc q k = omega (arith, ap (λ (t : ℕ). q * t) (pow-suc 2 k))

-- `(high << k) | low`
pub bit_or-high_low :
    (k high low : ℕ) → low < 2 ^ k → bit_or (high * 2 ^ k) low ≡ high * 2 ^ k + low
bit_or-high_low zero high low h = ground (arith, bit_or-zero_right (suc high) high)
bit_or-high_low (suc k) high low h = ground (
  arith,
  bit_or_halves (high * 2 ^ suc k) low,
  times_pow-suc high k,
  pow-suc 2 k,
  bit_or-high_low k high (low / 2) (omega (arith, pow-suc 2 k)),
)

-- `low | (high << k)`
pub bit_or-low_high :
    (k high low : ℕ) → low < 2 ^ k → bit_or low (high * 2 ^ k) ≡ high * 2 ^ k + low
bit_or-low_high zero high low h = ground (arith, bit_or-zero_left (suc high) high)
bit_or-low_high (suc k) high low h = ground (
  arith,
  bit_or_halves low (high * 2 ^ suc k),
  times_pow-suc high k,
  pow-suc 2 k,
  bit_or-low_high k high (low / 2) (omega (arith, pow-suc 2 k)),
)

-- The mask keeps the low field.
mask_keeps_low : (k high low : ℕ) → low < 2 ^ k → bit_and (high * 2 ^ k + low) (2 ^ k - 1) ≡ low
mask_keeps_low zero high low h =
    omega (arith, bit_and-zero_right (suc (high * 1 + low)) (high * 1 + low))
mask_keeps_low (suc k) high low h =
    let power = pow-suc 2 k in
    let half_word : (high * 2 ^ suc k + low) / 2 ≡ high * 2 ^ k + low / 2 =
      omega (arith, times_pow-suc high k) in
    let half_mask : (2 ^ suc k - 1) / 2 ≡ 2 ^ k - 1 = omega (arith, power) in
    let rest = mask_keeps_low k high (low / 2) (omega (arith, power)) in
    let step = bit_and_halves (high * 2 ^ suc k + low) (2 ^ suc k - 1) in
    (rw (half_word, half_mask, rest) at step)
    ∙ ground (arith, times_pow-suc high k, power, one-le-pow k 2)

-- `x & ((1 << k) - 1)`
pub bit_and-mask : (k x : ℕ) → bit_and x (2 ^ k - 1) ≡ x % 2 ^ k
bit_and-mask k x =
    let positive = one-le-pow k 2 (omega arith) in
    let kept = mask_keeps_low k (x / 2 ^ k) (x % 2 ^ k) (grind arith) in
    let whole : x / 2 ^ k * 2 ^ k + x % 2 ^ k ≡ x = grind arith in rw whole at kept

-- `|` of a word whose `k` low bits are 0 and one that fits them
pub bit_or-sum : (k high low : ℕ) → high % 2 ^ k ≡ 0 → low < 2 ^ k → bit_or high low ≡ high + low
bit_or-sum k high low clear h =
    let whole : high / 2 ^ k * 2 ^ k ≡ high = grind arith in
    rw whole at (bit_or-high_low k (high / 2 ^ k) low h)
