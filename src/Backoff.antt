-- ===== src/Backoff.antt =====
-- Backoff times: `RetryConfig`, `calculate_backoff` and `next_retry_after` of
-- crates/core/seidrum-eventbus/src/delivery/retry.rs. The random number and the clock are arguments.
use native.Mathlib.Nat.{pow-suc, mul-le-mul_left}
use seidrum.Base.{
  ℕ, zero, suc, ◌+◌, ◌-◌, ◌*◌, ◌/◌, ◌%◌, ◌^◌, ◌≤◌, ◌<◌, min, max, arith, ◌≡◌, leb, leb→le,
  Bool-cases, inl, inr,
}
use seidrum.Store.{u64_mod}

pub record RetryConfig : Type 0 where
  pub max_attempts : ℕ
  pub initial_backoff_ms : ℕ
  pub max_backoff_ms : ℕ

abbrev pub default_config : RetryConfig
default_config = record { max_attempts = 5; initial_backoff_ms = 100; max_backoff_ms = 30000 }

-- `saturating_pow` and `saturating_mul` at 64 bits.
unfoldable pub saturating_pow : ℕ → ℕ → ℕ
saturating_pow b e = min (b ^ e) (u64_mod - 1)

unfoldable pub saturating_mul : ℕ → ℕ → ℕ
saturating_mul a b = min (a * b) (u64_mod - 1)

unfoldable pub capped_ms : ℕ → ℕ → ℕ → ℕ
unfolding saturating_pow saturating_mul
capped_ms attempt initial_ms max_ms =
    min (saturating_mul initial_ms (saturating_pow 2 (attempt - 1))) max_ms

-- The range of the jitter: a random number is drawn below it.
unfoldable pub jitter_range : ℕ → ℕ
jitter_range capped = max (capped / 4) 1

unfoldable pub calculate_backoff : (ℕ → ℕ) → ℕ → ℕ → ℕ → ℕ
unfolding capped_ms jitter_range
calculate_backoff random_range attempt initial_ms max_ms =
    let capped = capped_ms attempt initial_ms max_ms in capped - random_range (jitter_range capped)

unfoldable pub next_retry_after : (ℕ → ℕ) → ℕ → ℕ → RetryConfig → ℕ
unfolding calculate_backoff
next_retry_after random_range now attempts config =
    (now + calculate_backoff random_range attempts config.initial_backoff_ms config.max_backoff_ms)
    % u64_mod

-- For a random number below its range the wait is at most the maximum, at least three quarters of
-- the capped time, and the subtraction of the jitter does not underflow.
pub calculate_backoff_bounds :
    (random_range : ℕ → ℕ) (attempt initial_ms max_ms : ℕ)
    → ((r : ℕ) → 0 < r → random_range r < r)
    → let capped = capped_ms attempt initial_ms max_ms in
      (calculate_backoff random_range attempt initial_ms max_ms ≤ max_ms)
      × (3 * capped ≤ 4 * calculate_backoff random_range attempt initial_ms max_ms)
      × (random_range (jitter_range capped) ≤ capped)
unfolding calculate_backoff
calculate_backoff_bounds random_range attempt initial_ms max_ms drawn =
    bounds (drawn (jitter_range (capped_ms attempt initial_ms max_ms)) positive)
  where
    positive : 0 < jitter_range (capped_ms attempt initial_ms max_ms)
    positive = omega arith

    bounds :
        random_range (jitter_range (capped_ms attempt initial_ms max_ms))
          < jitter_range (capped_ms attempt initial_ms max_ms)
        → (calculate_backoff random_range attempt initial_ms max_ms ≤ max_ms)
          × (3 * capped_ms attempt initial_ms max_ms
              ≤ 4 * calculate_backoff random_range attempt initial_ms max_ms)
          × (random_range (jitter_range (capped_ms attempt initial_ms max_ms))
              ≤ capped_ms attempt initial_ms max_ms)
    bounds h = (omega arith, omega arith, omega arith)

-- The same of a power `p` of 2 and the next.
abbrev capped : ℕ → ℕ → ℕ → ℕ
capped p initial_ms max_ms = min (saturating_mul initial_ms (min p (u64_mod - 1))) max_ms

capped_mono :
    (p q initial_ms max_ms : ℕ) → p ≤ q → capped p initial_ms max_ms ≤ capped q initial_ms max_ms
unfolding saturating_mul
capped_mono p q initial_ms max_ms h = omega (arith, mul-le-mul_left initial_ms (min-le p q h))
  where
    min-le : (p q : ℕ) → p ≤ q → min p (u64_mod - 1) ≤ min q (u64_mod - 1)
    min-le p q h = omega arith

capped_double :
    (p initial_ms max_ms : ℕ)
    → initial_ms * (2 * p) < u64_mod
    → initial_ms * (2 * p) ≤ max_ms
    → capped (2 * p) initial_ms max_ms ≡ 2 * capped p initial_ms max_ms
unfolding saturating_mul
capped_double p zero max_ms h k = omega arith
capped_double p (suc i) max_ms h k =
    let small : p ≤ suc i * p = grind arith in
    let one : min p (u64_mod - 1) ≡ p = omega arith in
    let two : min (2 * p) (u64_mod - 1) ≡ 2 * p = omega arith in rw (one, two) (omega arith)

pow_double : (e : ℕ) → 2 ^ suc e ≡ 2 * 2 ^ e
pow_double e = omega (arith, pow-suc 2 e)

-- One attempt more never lowers the capped time.
pub capped_ms-suc :
    (attempt initial_ms max_ms : ℕ)
    → capped_ms (suc attempt) initial_ms max_ms ≤ capped_ms (suc (suc attempt)) initial_ms max_ms
unfolding capped_ms
capped_ms-suc attempt initial_ms max_ms =
    let one : suc attempt - 1 ≡ attempt = omega arith in
    let two : suc (suc attempt) - 1 ≡ suc attempt = omega arith in
    rw (one, two, pow_double attempt)
      (capped_mono (2 ^ attempt) (2 * 2 ^ attempt) initial_ms max_ms (omega arith))

-- One attempt more doubles the capped time, while the doubled time fits 64 bits and the maximum.
pub capped_ms_doubles :
    (attempt initial_ms max_ms : ℕ)
    → initial_ms * (2 * 2 ^ attempt) < u64_mod
    → initial_ms * (2 * 2 ^ attempt) ≤ max_ms
    → capped_ms (suc (suc attempt)) initial_ms max_ms
      ≡ 2 * capped_ms (suc attempt) initial_ms max_ms
unfolding capped_ms
capped_ms_doubles attempt initial_ms max_ms fits below =
    let one : suc attempt - 1 ≡ attempt = omega arith in
    let two : suc (suc attempt) - 1 ≡ suc attempt = omega arith in
    rw (one, two, pow_double attempt) (capped_double (2 ^ attempt) initial_ms max_ms fits below)

capped-min :
    (p initial_ms max_ms : ℕ)
    → max_ms < u64_mod
    → capped p initial_ms max_ms ≡ min (initial_ms * p) max_ms
unfolding saturating_mul
capped-min p zero max_ms fits = omega arith
capped-min p (suc i) max_ms fits =
    let large : p ≤ suc i * p = grind arith in
    elim (Bool-cases (leb p (u64_mod - 1))) [
      | inl small ↦
          let same : min p (u64_mod - 1) ≡ p = omega (arith, leb→le p (u64_mod - 1) small) in
          rw same (omega arith)
      | inr big ↦
          let above : u64_mod - 1 < p = ground arith in
          let most : min p (u64_mod - 1) ≡ u64_mod - 1 = omega arith in rw most (omega arith)
    ]

-- The capped time after some attempts: the initial time doubled by each, at most the maximum.
pub capped_ms-min :
    (attempts initial_ms max_ms : ℕ)
    → max_ms < u64_mod
    → capped_ms (attempts + 1) initial_ms max_ms ≡ min (initial_ms * 2 ^ attempts) max_ms
unfolding capped_ms saturating_pow
capped_ms-min attempts initial_ms max_ms fits =
    let one : attempts + 1 - 1 ≡ attempts = omega arith in
    rw one (capped-min (2 ^ attempts) initial_ms max_ms fits)
