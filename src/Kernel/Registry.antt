-- ===== src/Kernel/Registry.antt =====
-- The registry of plugins, crates/core/seidrum-kernel/src/registry/service.rs, with the registration of
-- crates/core/seidrum-common/src/events.rs. Configuration schemas are values of a parameter.
pub mod Queries
use seidrum.Base.{
  Text, codes, text_eq, Bool, true, false, Option, none, some, List, [], ◌∷◌, ◌++◌, any,
}
use seidrum.Base.Maps.{HashMap, get, insert, remove, values}
use seidrum.Base.Maps.Named.{names_of}

pub record PluginRegister (V : Type 0) : Type 0 where
  pub id : Text
  pub name : Text
  pub version : Text
  pub description : Text
  pub consumes : List Text
  pub produces : List Text
  pub health_subject : Text
  pub consumed_event_types : List Text
  pub produced_event_types : List Text
  pub config_schema : Option V

pub data RegistryQuery : Type 0 where
  ask_plugin : Text → RegistryQuery
  ask_plugins : RegistryQuery
  ask_consumers ask_producers : Text → RegistryQuery
  ask_config_schema : Text → RegistryQuery

pub record RegistryQueryResponse (V : Type 0) : Type 0 where
  pub success : Bool
  pub plugin : Option (PluginRegister V)
  pub plugins : Option (List (PluginRegister V))
  pub plugin_ids : Option (List Text)
  pub config_schema : Option V
  pub error : Option Text

abbrev pub is_some {ℓ} : {A : Type ℓ} → Option A → Bool
is_some none = false
is_some (some a) = true

abbrev pub schema_of : {V : Type 0} → Option (PluginRegister V) → Option V
schema_of none = none
schema_of (some p) = p.config_schema

abbrev pub not_found : {V : Type 0} → Text → Option (PluginRegister V) → Option Text
not_found id none = some (codes "Plugin '" ++ id ++ codes "' not found")
not_found id (some p) = none

abbrev pub Plugins : Type 0 → Type 0
Plugins V = HashMap (PluginRegister V)

abbrev pub has_subject : List Text → Text → Bool
has_subject subjects event_type = any (λ c. text_eq c event_type) subjects

-- The messages that the service acts on.
pub data RegistryMessage (V : Type 0) : Type 0 where
  registered : PluginRegister V → RegistryMessage V
  deregistered : Text → RegistryMessage V

module _ {V : Type 0} where
  -- Whether the plugin was there, and the registry without it.
  unfoldable pub deregister_plugin : Text → Plugins V → Bool × Plugins V
  deregister_plugin id plugins = (is_some (get plugins id), remove plugins id)

  unfoldable pub register_plugin : PluginRegister V → Plugins V → Plugins V
  register_plugin r plugins = insert plugins r.id r

  abbrev pub get_plugin : Plugins V → Text → Option (PluginRegister V)
  get_plugin plugins id = get plugins id

  abbrev pub list_plugins : Plugins V → List (PluginRegister V)
  list_plugins plugins = values plugins

  abbrev pub get_consumers : Plugins V → Text → List Text
  get_consumers plugins event_type =
      names_of (λ p. p.id) (λ p. has_subject p.consumes event_type) plugins

  abbrev pub get_producers : Plugins V → Text → List Text
  get_producers plugins event_type =
      names_of (λ p. p.id) (λ p. has_subject p.produces event_type) plugins

  unfoldable pub handle_query : Plugins V → RegistryQuery → RegistryQueryResponse V
  handle_query plugins (ask_plugin id) = record {
    success = is_some (get_plugin plugins id);
    plugin = get_plugin plugins id;
    plugins = none;
    plugin_ids = none;
    config_schema = none;
    error = none;
  }
  handle_query plugins ask_plugins = record {
    success = true;
    plugin = none;
    plugins = some (list_plugins plugins);
    plugin_ids = none;
    config_schema = none;
    error = none;
  }
  handle_query plugins (ask_consumers event_type) = record {
    success = true;
    plugin = none;
    plugins = none;
    plugin_ids = some (get_consumers plugins event_type);
    config_schema = none;
    error = none;
  }
  handle_query plugins (ask_producers event_type) = record {
    success = true;
    plugin = none;
    plugins = none;
    plugin_ids = some (get_producers plugins event_type);
    config_schema = none;
    error = none;
  }
  handle_query plugins (ask_config_schema id) = record {
    success = is_some (get_plugin plugins id);
    plugin = none;
    plugins = none;
    plugin_ids = none;
    config_schema = schema_of (get_plugin plugins id);
    error = not_found id (get_plugin plugins id);
  }

  abbrev pub on_message : RegistryMessage V → Plugins V → Plugins V
  on_message (registered r) plugins = register_plugin r plugins
  on_message (deregistered id) plugins = (deregister_plugin id plugins).1

  -- The registry after messages, the latest first.
  unfoldable pub after_messages : List (RegistryMessage V) → Plugins V
  after_messages [] = []
  after_messages (m ∷ ms) = on_message m (after_messages ms)
