-- ===== src/Kernel/Registry/Queries.antt =====
-- What the registry of plugins, crates/core/seidrum-kernel/src/registry/service.rs, answers.
use seidrum.Base.{
  if◌then◌else◌, Text, text_eq, Bool, Option, none, some, List, [], ◌∷◌, any, find, ◌≡◌, refl, ap,
  ◌∙◌,
}
use seidrum.Base.Maps.{get, get-insert, get-remove, IsKeyed, insert-IsKeyed, remove-IsKeyed}
use seidrum.Base.Maps.Named.{
  IsNamed, insert-IsNamed, remove-IsNamed, names_of, holds, find-values, any-names_of,
}
use seidrum.Kernel.Registry.{
  PluginRegister, RegistryQuery, ask_plugin, ask_plugins, ask_consumers, ask_producers,
  ask_config_schema, RegistryQueryResponse, is_some, schema_of, not_found, Plugins, has_subject,
  deregister_plugin, register_plugin, handle_query, RegistryMessage, registered, deregistered,
  on_message, after_messages,
}

module _ {V : Type 0} where
  -- The registration that counts after messages, the latest first: the last one under the id, unless
  -- the id was deregistered since.
  abbrev pub current : List (RegistryMessage V) → Text → Option (PluginRegister V)
  current [] id = none
  current (registered r ∷ ms) id = if text_eq r.id id then some r else current ms id
  current (deregistered d ∷ ms) id = if text_eq d id then none else current ms id

  abbrev pub IsRegistry : Plugins V → Type 0
  IsRegistry plugins = IsKeyed plugins × IsNamed (λ p. p.id) plugins

  on_message-IsRegistry :
      (m : RegistryMessage V) (plugins : Plugins V)
      → IsRegistry plugins
      → IsRegistry (on_message m plugins)
  unfolding register_plugin deregister_plugin
  on_message-IsRegistry (registered r) plugins (keyed, named) =
      (insert-IsKeyed plugins r.id r keyed, insert-IsNamed (λ p. p.id) plugins r named)
  on_message-IsRegistry (deregistered id) plugins (keyed, named) =
      (remove-IsKeyed plugins id keyed, remove-IsNamed (λ p. p.id) plugins id named)

  after_messages-IsRegistry : (ms : List (RegistryMessage V)) → IsRegistry (after_messages ms)
  unfolding after_messages
  after_messages-IsRegistry [] = (tt, tt)
  after_messages-IsRegistry (m ∷ ms) =
      on_message-IsRegistry m (after_messages ms) (after_messages-IsRegistry ms)

  get-after_messages :
      (ms : List (RegistryMessage V)) (id : Text) → get (after_messages ms) id ≡ current ms id
  unfolding after_messages register_plugin deregister_plugin get
  get-after_messages [] id = refl
  get-after_messages (registered r ∷ ms) id =
      get-insert (after_messages ms) r.id r id
      ∙ ap (λ o. if text_eq r.id id then some r else o) (get-after_messages ms id)
  get-after_messages (deregistered d ∷ ms) id =
      get-remove (after_messages ms) d id
      ∙ ap (λ o. if text_eq d id then none else o) (get-after_messages ms id)

  listed :
      (ms : List (RegistryMessage V)) (p : PluginRegister V → Bool) (id : Text)
      → any (λ n. text_eq n id) (names_of (λ r. r.id) p (after_messages ms))
        ≡ holds p (current ms id)
  listed ms p id =
      any-names_of (λ r. r.id) p (after_messages ms) id (after_messages-IsRegistry ms).0
        (after_messages-IsRegistry ms).1
      ∙ ap (holds p) (get-after_messages ms id)

  -- The answer that a query deserves from the registrations by id. Lists may come in any order.
  abbrev pub Answers :
      (Text → Option (PluginRegister V)) → RegistryQuery → RegistryQueryResponse V → Type 0
  Answers view (ask_plugin id) r = (r.plugin ≡ view id) × (r.success ≡ is_some (view id))
  Answers view ask_plugins r =
      (listed : List (PluginRegister V)) × (r.plugins ≡ some listed)
      × ((id : Text) → find (λ p. text_eq p.id id) listed ≡ view id)
  Answers view (ask_consumers event_type) r =
      (ids : List Text) × (r.plugin_ids ≡ some ids)
      × ((id : Text)
          → any (λ n. text_eq n id) ids ≡ holds (λ p. has_subject p.consumes event_type) (view id))
  Answers view (ask_producers event_type) r =
      (ids : List Text) × (r.plugin_ids ≡ some ids)
      × ((id : Text)
          → any (λ n. text_eq n id) ids ≡ holds (λ p. has_subject p.produces event_type) (view id))
  Answers view (ask_config_schema id) r =
      (r.config_schema ≡ schema_of (view id))
      × (r.success ≡ is_some (view id))
      × (r.error ≡ not_found id (view id))

  -- After any messages, the registry answers each query from the registrations that count: the
  -- last under each id, unless it was deregistered since.
  pub handle_query-Answers :
      (ms : List (RegistryMessage V)) (query : RegistryQuery)
      → Answers (current ms) query (handle_query (after_messages ms) query)
  unfolding handle_query
  handle_query-Answers ms (ask_plugin id) =
      (get-after_messages ms id, ap is_some (get-after_messages ms id))
  handle_query-Answers ms ask_plugins = (
    _,
    refl,
    λ id.
        find-values (λ p. p.id) (after_messages ms) id (after_messages-IsRegistry ms).1
        ∙ get-after_messages ms id,
  )
  handle_query-Answers ms (ask_consumers event_type) =
      (_, refl, λ id. listed ms (λ p. has_subject p.consumes event_type) id)
  handle_query-Answers ms (ask_producers event_type) =
      (_, refl, λ id. listed ms (λ p. has_subject p.produces event_type) id)
  handle_query-Answers ms (ask_config_schema id) = (
    ap schema_of (get-after_messages ms id),
    ap is_some (get-after_messages ms id),
    ap (not_found id) (get-after_messages ms id),
  )
