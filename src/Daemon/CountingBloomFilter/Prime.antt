-- ===== src/Daemon/CountingBloomFilter/Prime.antt =====
-- `generate_prime` of daemon/counting_bloom_filter.hpp, whose numbers are 32 bits.
use native.Mathlib.Decide.{ℕ_discrete, dec_lt}
use cleancache_rdma.Prelude.{
  ℕ, zero, suc, ◌+◌, ◌-◌, ◌*◌, ◌/◌, ◌%◌, ◌<◌, ◌≤◌, ◌≡◌, ◌≢◌, ◌⊎◌, Bool, true, false, not, ◌||◌,
  ◌&&◌, ◌==◌, if◌then◌else◌, Bool-cases, inl, inr, arith,
}

-- The inner loop, over the `n` numbers from `i` on: whether none of them divides `low`.
unfoldable pub undivided_from : ℕ → ℕ → ℕ → Bool
undivided_from low zero i = true
undivided_from low (suc n) i = if low % i == 0 then false else undivided_from low n (i + 1)

unfoldable pub is_prime : ℕ → Bool
is_prime low = not (low == 0 || low == 1) && undivided_from low (low / 2 - 1) 2

-- The outer loop, with the `n` numbers left below `high`.
unfoldable pub prime_from : ℕ → ℕ → ℕ
prime_from zero low = low
prime_from (suc n) low = let rest = prime_from n (low + 1) in if is_prime low then low else rest

unfoldable pub generate_prime : ℕ → ℕ → ℕ
generate_prime low high = prime_from (high - low) low

-- The numbers from 2 on have no divisor between 1 and themselves.
abbrev pub IsPrime : ℕ → Type 0
IsPrime p = (1 < p) × ((d : ℕ) → 1 < d → d < p → p % d ≢ 0)

undivided_from-true :
    (low n i d : ℕ) → undivided_from low n i ≡ true → i ≤ d → d < i + n → low % d ≢ 0
unfolding undivided_from
undivided_from-true low zero i d h lo hi = absurd (omega arith)
undivided_from-true low (suc n) i d h lo hi =
    let parts : (low % i ≢ 0) × (undivided_from low n (i + 1) ≡ true) =
      (ground (arith, h), ground (arith, h)) in
    elim (ℕ_discrete d i) [
      | yes e ↦ rw e parts.0
      | no e ↦
          undivided_from-true low n (i + 1) d parts.1 (omega (arith, lo, e)) (omega (arith, hi))
    ]

undivided_from-false :
    (low n i : ℕ) → undivided_from low n i ≡ false → (d : ℕ) × (i ≤ d) × (d < i + n) × (low % d ≡ 0)
unfolding undivided_from
undivided_from-false low zero i h = absurd (cc)
undivided_from-false low (suc n) i h = elim (ℕ_discrete (low % i) 0) [
  | yes e ↦ (i, omega arith, omega arith, e)
  | no e ↦
      let (d, lo, hi, zero_rest) = undivided_from-false low n (i + 1) (ground (arith, h, e)) in
      (d, omega (arith, lo), omega (arith, hi), zero_rest)
]

is_prime-true : (p : ℕ) → is_prime p ≡ true → IsPrime p
unfolding is_prime
is_prime-true p h =
    let parts : (1 < p) × (undivided_from p (p / 2 - 1) 2 ≡ true) =
      (ground (arith, h), ground (arith, h)) in
    (
      parts.0,
      λ d more less. elim (dec_lt d (2 + (p / 2 - 1))) [
        | yes below ↦ undivided_from-true p (p / 2 - 1) 2 d parts.1 (omega (arith, more)) below
        | no above ↦
            let once : p % d ≡ p - d = large d less (omega (arith, above, parts.0)) in
            λ e. absurd (omega (arith, once, e, less))
      ],
    )
  where
    large : (d : ℕ) → d < p → p < 2 * d → p % d ≡ p - d
    large d less twice = grind arith

is_prime-false : (p : ℕ) → is_prime p ≡ false → IsPrime p → ⊥
unfolding is_prime
is_prime-false p h (more, prime) =
    let (d, lo, hi, zero_rest) = undivided_from-false p (p / 2 - 1) 2 (ground (arith, h, more)) in
    prime d (omega (arith, lo)) (omega (arith, hi, more)) zero_rest

-- Where the search ends.
record Found (high low r : ℕ) : Type 0 where
  above : low ≤ r
  below : r ≤ high
  prime : (r ≡ high) ⊎ IsPrime r
  first : (k : ℕ) → low ≤ k → k < r → ¬ IsPrime k

prime_from-Found : (n low high : ℕ) → low + n ≡ high → Found high low (prime_from n low)
unfolding prime_from
prime_from-Found zero low high e = record {
  above = omega arith;
  below = omega (arith, e);
  prime = inl (omega (arith, e));
  first = λ k lo hi. absurd (omega (arith, lo, hi));
}
prime_from-Found (suc n) low high e =
    let rest = prime_from-Found n (low + 1) high (omega (arith, e)) in
    elim (Bool-cases (is_prime low)) [
      | inl p ↦ rw p record {
        above = omega arith;
        below = omega (arith, e);
        prime = inr (is_prime-true low p);
        first = λ k lo hi. absurd (omega (arith, lo, hi));
      }
      | inr p ↦ rw p record {
        above = omega (arith, rest.above);
        below = rest.below;
        prime = rest.prime;
        first = λ k lo hi. elim (ℕ_discrete k low) [
          | yes same ↦ rw same (is_prime-false low p)
          | no other ↦ rest.first k (omega (arith, lo, other)) hi
        ];
      }
    ]

-- `generate_prime` of a `low` of at most `high` ends, and returns the first prime from `low` on, or
-- `high` where there is none below: the result is a prime or `high`, and no number between `low` and
-- the result is a prime.
pub generate_prime-first :
    (low high k : ℕ)
    → low ≤ high
    → (low ≤ generate_prime low high)
      × (generate_prime low high ≤ high)
      × ((generate_prime low high ≡ high) ⊎ IsPrime (generate_prime low high))
      × ((k < low) ⊎ ((generate_prime low high ≤ k) ⊎ (¬ IsPrime k)))
unfolding generate_prime
generate_prime-first low high k ordered =
    let found = prime_from-Found (high - low) low high (omega (arith, ordered)) in
    (
      found.above,
      found.below,
      found.prime,
      elim (dec_lt k low) [
        | yes before ↦ inl before
        | no from ↦ elim (dec_lt k (prime_from (high - low) low)) [
          | yes until ↦ inr (inr (found.first k (omega (arith, from)) until))
          | no past ↦ inr (inl (omega (arith, past)))
        ]
      ],
    )
