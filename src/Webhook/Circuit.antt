-- ===== src/Webhook/Circuit.antt =====
-- The circuit breaker of `WebhookChannel`, crates/core/seidrum-eventbus/src/delivery/webhook.rs. Times and
-- durations are in nanoseconds.
pub mod Bounds
use seidrum.Base.{
  ℕ, ◌+◌, ◌-◌, ◌*◌, ◌/◌, ◌^◌, min, if◌then◌else◌, leb, ltb, ◌==◌, Text, codes, Bool, true, false,
  not, ◌&&◌, ◌||◌, Option, none, some, List, [], ◌++◌,
}
use seidrum.Base.Maps.{HashMap, get, insert}
use seidrum.Channel.{
  ChannelConfig, in_process, web_socket, webhook, custom, DeliveryError, failed, permanent,
}
use seidrum.Error.{Result, ok, err}
use seidrum.Store.{u32_mod}
use seidrum.Webhook.{WebhookUrlError, WebhookUrlPolicy, ValidatedWebhookUrl}

pub record WebhookCircuitBreakerConfig : Type 0 where
  pub failure_threshold : ℕ
  pub initial_cooldown : ℕ
  pub max_cooldown : ℕ

abbrev pub default_config : WebhookCircuitBreakerConfig
default_config = record {
  failure_threshold = 3;
  initial_cooldown = 30000000000;
  max_cooldown = 300000000000;
}

-- `opened` is `CircuitMode::Open`.
pub data CircuitMode : Type 0 where
  closed opened half_open : CircuitMode

pub record CircuitState : Type 0 where
  pub mode : CircuitMode
  pub consecutive_failures : ℕ
  pub cooldown : ℕ
  pub opened_until : Option ℕ

abbrev pub new : WebhookCircuitBreakerConfig → CircuitState
new config = record {
  mode = closed;
  consecutive_failures = 0;
  cooldown = config.initial_cooldown;
  opened_until = none;
}

-- `is_some_and(|until| now >= until)`.
abbrev pub is_over : ℕ → Option ℕ → Bool
is_over now none = false
is_over now (some until) = leb until now

-- Whether a circuit lets a delivery through, and its state then.
abbrev pub gate : ℕ → CircuitMode → CircuitState → Bool × CircuitState
gate now closed s = (true, s)
gate now half_open s = (true, s)
gate now opened s =
    if is_over now s.opened_until then (true, record s { mode = half_open }) else (false, s)

abbrev pub is_half_open : CircuitMode → Bool
is_half_open half_open = true
is_half_open closed = false
is_half_open opened = false

-- `Duration::saturating_mul(2)`.
abbrev pub duration_max : ℕ
duration_max = 2 ^ 64 * 1000000000 - 1

abbrev pub doubled : ℕ → ℕ
doubled d = min (d * 2) duration_max

abbrev pub next_failures : ℕ → ℕ
next_failures n = min (n + 1) (u32_mod - 1)

abbrev pub trip : WebhookCircuitBreakerConfig → ℕ → CircuitState → CircuitState
trip config now s = record {
  mode = opened;
  consecutive_failures = s.consecutive_failures;
  cooldown = min (doubled s.cooldown) config.max_cooldown;
  opened_until = some (now + s.cooldown);
}

-- The state of a circuit after a failure.
unfoldable pub fail_at : WebhookCircuitBreakerConfig → ℕ → CircuitState → CircuitState
fail_at config now s =
    let counted = record s { consecutive_failures = next_failures s.consecutive_failures } in
    if is_half_open s.mode || leb config.failure_threshold counted.consecutive_failures
    then trip config now counted
    else counted

pub record WebhookChannel : Type 0 where
  pub policy : WebhookUrlPolicy
  pub circuit_config : WebhookCircuitBreakerConfig
  pub circuits : HashMap CircuitState

abbrev pub with_policy_and_circuit : WebhookUrlPolicy → WebhookCircuitBreakerConfig → WebhookChannel
with_policy_and_circuit policy config = record {
  policy = policy;
  circuit_config = config;
  circuits = [];
}

abbrev pub or_new : WebhookCircuitBreakerConfig → Option CircuitState → CircuitState
or_new config none = new config
or_new config (some s) = s

-- `circuits.entry(url).or_insert_with(..)`.
abbrev pub circuit : WebhookChannel → Text → CircuitState
circuit ch url = or_new ch.circuit_config (get ch.circuits url)

abbrev pub set_circuit : WebhookChannel → Text → CircuitState → WebhookChannel
set_circuit ch url s = record ch { circuits = insert ch.circuits url s }

abbrev pub skipped : DeliveryError
skipped = failed (codes "webhook circuit open; delivery skipped until cooldown expires")

unfoldable pub ensure_circuit_allows_delivery : WebhookChannel → Text → ℕ → Bool × WebhookChannel
ensure_circuit_allows_delivery ch url now =
    let (allowed, s) = gate now (circuit ch url).mode (circuit ch url) in
    (allowed, set_circuit ch url s)

unfoldable pub record_success : WebhookChannel → Text → WebhookChannel
record_success ch url = set_circuit ch url (new ch.circuit_config)

unfoldable pub record_failure : WebhookChannel → Text → ℕ → WebhookChannel
record_failure ch url now = set_circuit ch url (fail_at ch.circuit_config now (circuit ch url))

abbrev pub is_opened : CircuitMode → Bool
is_opened opened = true
is_opened closed = false
is_opened half_open = false

-- `is_some_and(|until| now < until)`.
abbrev pub is_ahead : ℕ → Option ℕ → Bool
is_ahead now none = false
is_ahead now (some until) = ltb now until

abbrev pub blocks : ℕ → Option CircuitState → Bool
blocks now none = false
blocks now (some s) = is_opened s.mode && is_ahead now s.opened_until

abbrev pub circuit_blocks_health : WebhookChannel → Text → ℕ → Bool
circuit_blocks_health ch url now = blocks now (get ch.circuits url)
