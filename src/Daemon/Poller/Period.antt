-- ===== src/Daemon/Poller/Period.antt =====
-- How the polling period changes.
use native.Mathlib.Decide.{dec_lt}
use native.Mathlib.Nat.{pow-suc}
use cleancache_rdma.Prelude.{
  ℕ, zero, suc, ◌+◌, ◌*◌, ◌/◌, ◌^◌, ◌<◌, ◌≤◌, ◌≡◌, ◌↔◌, ◌∙◌, ap, Bool, true, false, List, [], ◌∷◌,
  ltb, ◌==◌, ◌&&◌, Bool-cases, ==_iff, refl, inl, inr, arith,
}
use cleancache_rdma.Daemon.Poller.{
  Mode, event_mode, min_duration, max_duration, first_duration, succ_rate_of, adapt, poll_periods,
}

-- a power of two between the two bounds
pub record IsPeriod (duration : ℕ) : Type 0 where
  pub exponent : ℕ
  pub small : exponent ≤ 10
  pub power : duration ≡ 2 ^ exponent

halved : (duration : ℕ) → 1 < duration → IsPeriod duration → IsPeriod (duration / 2)
halved duration more p = elim_exponent p.exponent p.small p.power
  where
    elim_exponent : (k : ℕ) → k ≤ 10 → duration ≡ 2 ^ k → IsPeriod (duration / 2)
    elim_exponent zero small power = absurd (omega (arith, power, more))
    elim_exponent (suc k) small power = record {
      exponent = k;
      small = omega (arith, small);
      power = omega (arith, power, pow-suc 2 k);
    }

doubled : (duration : ℕ) → duration < 2 ^ 10 → IsPeriod duration → IsPeriod (duration * 2)
doubled duration less p = elim (dec_lt p.exponent 10) [
  | yes below ↦ record {
    exponent = suc p.exponent;
    small = omega (arith, below);
    power = omega (arith, p.power, pow-suc 2 p.exponent);
  }
  | no full ↦
      let ten : p.exponent ≡ 10 = omega (arith, p.small, full) in
      absurd (omega (arith, less, p.power ∙ ap (λ (k : ℕ). 2 ^ k) ten))
]

adapt-IsPeriod :
    (adaptive : Bool) (duration succ_cnt failed_cnt : ℕ)
    → IsPeriod duration
    → IsPeriod (adapt adaptive duration succ_cnt failed_cnt).1
unfolding adapt
adapt-IsPeriod adaptive duration succ_cnt failed_cnt p =
    elim (Bool-cases (succ_rate_of succ_cnt failed_cnt == 0)) [
      | inl idle ↦ elim (Bool-cases (adaptive && ltb min_duration duration)) [
        | inl e ↦ rw (idle, e) (halved duration (ground (arith, e)) p)
        | inr e ↦ rw (idle, e) p
      ]
      | inr busy ↦
          elim (Bool-cases
            (adaptive && ltb 80 (succ_rate_of succ_cnt failed_cnt) && ltb duration max_duration)) [
              | inl e ↦ rw (busy, e) (doubled duration (ground (arith, e)) p)
              | inr e ↦ rw (busy, e) p
            ]
    ]

first_duration-IsPeriod : (adaptive : Bool) → IsPeriod (first_duration adaptive)
unfolding first_duration
first_duration-IsPeriod true = record { exponent = 5; small = omega arith; power = refl }
first_duration-IsPeriod false = record { exponent = 0; small = omega arith; power = refl }

poll_periods-IsPeriod :
    (adaptive : Bool) (periods : List (ℕ × ℕ)) (at : Mode × ℕ)
    → IsPeriod at.1
    → IsPeriod (poll_periods adaptive periods at).1
unfolding poll_periods
poll_periods-IsPeriod adaptive [] at p = p
poll_periods-IsPeriod adaptive ((s, f) ∷ rest) at p =
    poll_periods-IsPeriod adaptive rest (adapt adaptive at.1 s f)
      (adapt-IsPeriod adaptive at.1 s f p)

rate-zero : (s f : ℕ) → 0 < s + f → (succ_rate_of s f ≡ 0) ↔ (100 * s < s + f)
unfolding succ_rate_of
rate-zero s f some = (λ e. grind arith, λ e. grind arith)

-- After any sequence of polling periods, in either mode, the period is a power of two of at least 1 and
-- at most 1024 milliseconds. A period with at least one poll is followed by waiting for an event
-- exactly when less than one of 100 polls found something.
pub poll_periods-bounded :
    (adaptive : Bool) (periods : List (ℕ × ℕ)) (succ_cnt failed_cnt : ℕ)
    → 0 < succ_cnt + failed_cnt
    → IsPeriod (poll_periods adaptive periods (event_mode, first_duration adaptive)).1
      × (((adapt adaptive
              (poll_periods adaptive periods (event_mode, first_duration adaptive)).1
              succ_cnt
              failed_cnt).0
            ≡ event_mode)
          ↔ (100 * succ_cnt < succ_cnt + failed_cnt))
unfolding adapt
poll_periods-bounded adaptive periods s f some =
    let p =
      poll_periods-IsPeriod adaptive periods (event_mode, first_duration adaptive)
        (first_duration-IsPeriod adaptive) in
    let few = rate-zero s f some in
    elim (Bool-cases (succ_rate_of s f == 0)) [
      | inl e ↦ rw e (p, ((λ _. few.0 ((==_iff (succ_rate_of s f) 0).0 e)), (λ _. refl)))
      | inr e ↦ rw e (p, ((λ x. absurd (cc)), (λ x. absurd (ground (arith, e, few.1 x)))))
    ]
