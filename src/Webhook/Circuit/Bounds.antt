-- ===== src/Webhook/Circuit/Bounds.antt =====
-- How a circuit of crates/core/seidrum-eventbus/src/delivery/webhook.rs fares while its endpoint fails.
use native.Mathlib.Nat.{pow-suc}
use seidrum.Base.{
  ℕ, suc, ◌+◌, ◌*◌, ◌^◌, ◌≤◌, ◌<◌, min, leb, Bool, true, false, ◌||◌, some, List, [], ◌∷◌, length,
  ◌≡◌, refl, sym, ap, ◌∙◌, ◌⊎◌, inl, inr, Bool-cases, arith,
}
use seidrum.Store.{u32_mod}
use seidrum.Webhook.Circuit.{
  WebhookCircuitBreakerConfig, CircuitMode, closed, opened, half_open, CircuitState, new, gate,
  is_over, is_half_open, duration_max, doubled, next_failures, trip, fail_at,
}

-- A circuit under deliveries that fail: how many of them it let through, and when the last.
pub record Outage : Type 0 where
  pub calls : ℕ
  pub last : ℕ
  pub state : CircuitState

-- A delivery at a time, which fails if the circuit lets it through.
abbrev pub attempt : WebhookCircuitBreakerConfig → ℕ → Outage → Bool × CircuitState → Outage
attempt config now o (true, s) = record {
  calls = o.calls + 1;
  last = now;
  state = fail_at config now s;
}
attempt config now o (false, s) = record o { state = s }

-- Deliveries at the times of a list, the latest first.
unfoldable pub outage : WebhookCircuitBreakerConfig → List ℕ → Outage
outage config [] = record { calls = 0; last = 0; state = new config }
outage config (now ∷ times) =
    let o = outage config times in attempt config now o (gate now o.state.mode o.state)

module _ (config : WebhookCircuitBreakerConfig) where
  -- The wait after the opening of this number, counted from 0.
  pub wait : ℕ → ℕ
  wait k = min (config.initial_cooldown * 2 ^ k) config.max_cooldown

  -- A circuit that let fewer calls through than the threshold is closed; one that let `k` more
  -- through is open, for the wait number `k` from the last of them.
  abbrev pub Phase : Outage → Type 0
  Phase o =
      ((o.state.mode ≡ closed)
        × (o.calls < config.failure_threshold)
        × (o.state.cooldown ≡ config.initial_cooldown)
        × (o.state.consecutive_failures ≡ o.calls))
      ⊎ ((k : ℕ) × (o.calls ≡ config.failure_threshold + k)
          × (o.state.mode ≡ opened)
          × (o.state.cooldown ≡ wait (suc k))
          × (o.state.consecutive_failures ≡ o.calls)
          × (o.state.opened_until ≡ some (o.last + wait k)))

  doubled_wait :
      (p : ℕ)
      → config.max_cooldown * 2 ≤ duration_max
      → min (doubled (min p config.max_cooldown)) config.max_cooldown
        ≡ min (2 * p) config.max_cooldown
  doubled_wait p h = omega arith

  wait_next :
      (k : ℕ)
      → config.max_cooldown * 2 ≤ duration_max
      → min (doubled (wait k)) config.max_cooldown ≡ wait (suc k)
  unfolding wait
  wait_next k h = rw (pow-suc 2 k) (omega (arith, doubled_wait (config.initial_cooldown * 2 ^ k) h))

  wait_zero : config.initial_cooldown ≤ config.max_cooldown → wait 0 ≡ config.initial_cooldown
  unfolding wait
  wait_zero h = omega arith

  trips :
      (now : ℕ) (s : CircuitState)
      → (is_half_open s.mode || leb config.failure_threshold (next_failures s.consecutive_failures))
        ≡ true
      → fail_at config now s
        ≡ trip config now (record s { consecutive_failures = next_failures s.consecutive_failures })
  unfolding fail_at
  trips now s h = rw h refl

  stays :
      (now : ℕ) (s : CircuitState)
      → (is_half_open s.mode || leb config.failure_threshold (next_failures s.consecutive_failures))
        ≡ false
      → fail_at config now s
        ≡ record s { consecutive_failures = next_failures s.consecutive_failures }
  unfolding fail_at
  stays now s h = rw h refl

  module _ (o : Outage) (now : ℕ) (small : o.calls + 1 < u32_mod)
      (ordered : config.initial_cooldown ≤ config.max_cooldown)
      (fits : config.max_cooldown * 2 ≤ duration_max) where
    counted :
        o.state.consecutive_failures ≡ o.calls
        → next_failures o.state.consecutive_failures ≡ o.calls + 1
    counted count = omega arith

    reaches :
        o.state.mode ≡ closed
        → o.calls < config.failure_threshold
        → o.state.consecutive_failures ≡ o.calls
        → (is_half_open o.state.mode
            || leb config.failure_threshold (next_failures o.state.consecutive_failures))
          ≡ true
        → o.calls + 1 ≡ config.failure_threshold + 0
    reaches shut few count reached = ground arith

    remains :
        o.state.mode ≡ closed
        → o.state.consecutive_failures ≡ o.calls
        → (is_half_open o.state.mode
            || leb config.failure_threshold (next_failures o.state.consecutive_failures))
          ≡ false
        → o.calls + 1 < config.failure_threshold
    remains shut count below = ground arith

    -- What a call that opens the circuit leaves, for the wait number `k`.
    tripped-Phase :
        (k : ℕ) (s : CircuitState)
        → o.calls + 1 ≡ config.failure_threshold + k
        → s.consecutive_failures ≡ o.calls
        → s.cooldown ≡ wait k
        → (is_half_open s.mode
            || leb config.failure_threshold (next_failures s.consecutive_failures))
          ≡ true
        → Phase (attempt config now o (true, s))
    tripped-Phase k s calls count cool reached = rw (trips now s reached) (
        inr (
          k,
          calls,
          refl,
          ap (λ (c : ℕ). min (doubled c) config.max_cooldown) cool ∙ wait_next k fits,
          omega arith,
          ap (λ (c : ℕ). some (now + c)) cool,
        ))

    closed-Phase :
        o.state.mode ≡ closed
        → o.calls < config.failure_threshold
        → o.state.cooldown ≡ config.initial_cooldown
        → o.state.consecutive_failures ≡ o.calls
        → Phase (attempt config now o (true, o.state))
    closed-Phase shut few cool count =
        elim (Bool-cases (
          is_half_open o.state.mode
          || leb config.failure_threshold (next_failures o.state.consecutive_failures))) [
            | inl reached ↦
                tripped-Phase 0 o.state (reaches shut few count reached) count
                  (cool ∙ sym (wait_zero ordered)) reached
            | inr below ↦
                rw (stays now o.state below)
                  (inl (shut, remains shut count below, cool, counted count))
          ]

    opened-Phase :
        (k : ℕ)
        → o.calls ≡ config.failure_threshold + k
        → o.state.mode ≡ opened
        → o.state.cooldown ≡ wait (suc k)
        → o.state.consecutive_failures ≡ o.calls
        → o.state.opened_until ≡ some (o.last + wait k)
        → Phase (attempt config now o (gate now opened o.state))
    opened-Phase k calls mode cool count until =
        elim (Bool-cases (is_over now o.state.opened_until)) [
          | inl over ↦ rw over (
              tripped-Phase (suc k) (record o.state { mode = half_open }) (omega arith) count cool
                refl)
          | inr early ↦ rw early (inr (k, calls, mode, cool, count, until))
        ]

    at_mode :
        (m : CircuitMode)
        → o.state.mode ≡ m
        → Phase o
        → Phase (attempt config now o (gate now m o.state))
    at_mode closed e (inl (shut, few, cool, count)) = closed-Phase shut few cool count
    at_mode closed e (inr (k, calls, mode, cool, count, until)) = cc
    at_mode opened e (inl (shut, few, cool, count)) = cc
    at_mode opened e (inr (k, calls, mode, cool, count, until)) =
        opened-Phase k calls mode cool count until
    at_mode half_open e (inl (shut, few, cool, count)) = cc
    at_mode half_open e (inr (k, calls, mode, cool, count, until)) = cc

  one_call :
      (now : ℕ) (o : Outage) (r : Bool × CircuitState)
      → (attempt config now o r).calls ≤ o.calls + 1
  one_call now o (true, s) = omega arith
  one_call now o (false, s) = omega arith

  -- The number of calls of an outage is at most that of its deliveries.
  calls_le : (times : List ℕ) → (outage config times).calls ≤ length times
  unfolding outage
  calls_le [] = omega arith
  calls_le (now ∷ times) =
      let o = outage config times in
      omega (arith, one_call now o (gate now o.state.mode o.state), calls_le times)

  -- Over deliveries at any fewer than 2^32 times whose calls all fail, with a threshold of at
  -- least 1, an initial cooldown of at most the maximum and a maximum that can be doubled: a
  -- circuit that has let fewer calls through than the threshold is closed; one that has let `k`
  -- more through is open until `wait k` after the last of them, the initial cooldown times 2^k or
  -- the maximum.
  pub outage-Phase :
      (times : List ℕ)
      → 0 < config.failure_threshold
      → config.initial_cooldown ≤ config.max_cooldown
      → config.max_cooldown * 2 ≤ duration_max
      → length times < u32_mod
      → Phase (outage config times)
  unfolding outage
  outage-Phase [] positive ordered fits few = inl (refl, positive, refl, refl)
  outage-Phase (now ∷ times) positive ordered fits few =
      let o = outage config times in
      at_mode o now (omega (arith, calls_le times)) ordered fits o.state.mode refl
        (outage-Phase times positive ordered fits (omega arith))
