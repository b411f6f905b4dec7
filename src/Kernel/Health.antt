-- ===== src/Kernel/Health.antt =====
-- The health checks of crates/core/seidrum-kernel/src/scheduler/service.rs (`run_health_check`), with the
-- reply of crates/core/seidrum-common/src/events.rs. What each plugin replies comes with the check. The
-- messages are listed; whether the bus takes them changes nothing here.
pub mod Counts
pub mod Streaks
use seidrum.Base.{
  ℕ, ◌-◌, ◌/◌, if◌then◌else◌, leb, Text, Bool, true, false, not, Option, none, some, List, [], ◌∷◌,
}
use seidrum.Base.Maps.{HashMap, get, insert, remove}
use seidrum.Base.Maps.Named.{names_of}
use seidrum.Kernel.Registry.{PluginRegister, Plugins}
use seidrum.Store.{next_u32}

pub record PluginHealthResponse : Type 0 where
  pub plugin_id : Text
  pub status : Text
  pub uptime_seconds : ℕ
  pub events_processed : ℕ
  pub last_error : Option Text

-- What a ping comes to: a reply, parsed if it can be, an error, or a timeout.
pub data Reply : Type 0 where
  replied : Option PluginHealthResponse → Reply
  ping_failed : Text → Reply
  timed_out : Reply

-- Any response that parses is responsive, whatever its status.
abbrev pub is_responsive : Reply → Bool
is_responsive (replied (some health)) = true
is_responsive (replied none) = false
is_responsive (ping_failed e) = false
is_responsive timed_out = false

abbrev pub max_health_failures : ℕ
max_health_failures = 3

-- A check: the registry when it starts, the replies, and the seconds since the service started.
pub record Check (V : Type 0) : Type 0 where
  pub registry : Plugins V
  pub replies : PluginRegister V → Reply
  pub start_time : ℕ
  pub now : ℕ

pub record SystemHealth : Type 0 where
  pub nats_connected : Bool
  pub arangodb_connected : Bool
  pub active_plugins : List Text
  pub active_agents : ℕ
  pub uptime_seconds : ℕ

-- `counts.remove(id)` for each id.
unfoldable pub reset_each : List Text → HashMap ℕ → HashMap ℕ
reset_each [] counts = counts
reset_each (id ∷ ids) counts = reset_each ids (remove counts id)

abbrev pub or_zero : Option ℕ → ℕ
or_zero none = 0
or_zero (some n) = n

abbrev pub failures : HashMap ℕ → Text → ℕ
failures counts id = or_zero (get counts id)

-- One failure: whether it deregisters the plugin, and the counts.
unfoldable pub count_failure : Text → HashMap ℕ → Bool × HashMap ℕ
count_failure id counts =
    let count = next_u32 (failures counts id) in
    let counted = insert counts id count in
    if leb max_health_failures count then (true, remove counted id) else (false, counted)

abbrev pub push_if : Bool → Text → List Text → List Text
push_if true id ids = id ∷ ids
push_if false id ids = ids

-- The failures of a check: the plugins to deregister, and the counts.
unfoldable pub count_failures : List Text → HashMap ℕ → List Text × HashMap ℕ
count_failures [] counts = ([], counts)
count_failures (id ∷ ids) counts =
    let (dead, counted) = count_failure id counts in
    let (others, after) = count_failures ids counted in (push_if dead id others, after)

module _ {V : Type 0} where
  abbrev pub active_plugins : Check V → List Text
  active_plugins c = names_of (λ p. p.id) (λ p. is_responsive (c.replies p)) c.registry

  abbrev pub failed_plugins : Check V → List Text
  failed_plugins c = names_of (λ p. p.id) (λ p. not (is_responsive (c.replies p))) c.registry

  abbrev pub system_health : Check V → SystemHealth
  system_health c = record {
    nats_connected = true;
    arangodb_connected = true;
    active_plugins = active_plugins c;
    active_agents = 0;
    uptime_seconds = (c.now - c.start_time) / 1000;
  }

  -- The plugins that `plugin.deregister` is published for, the health that is published, and the
  -- counts after the check.
  unfoldable pub run_health_check : Check V → HashMap ℕ → List Text × SystemHealth × HashMap ℕ
  run_health_check c counts =
      let (dead, after) =
        count_failures (failed_plugins c) (reset_each (active_plugins c) counts) in
      (dead, system_health c, after)

  -- The counts after checks, the latest first.
  unfoldable pub after_checks : List (Check V) → HashMap ℕ
  after_checks [] = []
  after_checks (c ∷ cs) = (run_health_check c (after_checks cs)).2
