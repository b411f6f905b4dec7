-- ===== src/Kernel/Cleanup.antt =====
-- What the registry of plugins and the capabilities, crates/core/seidrum-kernel/src/registry/service.rs
-- and tool_registry/service.rs, do with the deregistrations that a health check publishes.
use seidrum.Base.{
  ◌%◌, ◌==◌, if◌then◌else◌, Text, text_eq, text_eq-sym, fun_ext, Bool, inl, inr, Bool-cases, ◌&&◌,
  Option, none, some, List, [], ◌∷◌, ◌≡◌, refl, ap, ◌∙◌, arith,
}
use seidrum.Base.Maps.{get, remove, get-remove}
use seidrum.Base.Maps.Named.{holds}
use seidrum.Kernel.Registry.{Plugins, deregister_plugin}
use seidrum.Kernel.Health.{Check, run_health_check, after_checks}
use seidrum.Kernel.Health.Counts.{listed}
use seidrum.Kernel.Health.Streaks.{
  trailing, is_failed, ping, pings, AllRegistries, run_health_check-third,
}
use seidrum.Kernel.Capabilities.{Tools, ToolEntry, Backend, deregister_by_plugin}
use seidrum.Kernel.Capabilities.Owned.{IsTools, deregister_by_plugin_lem}

module _ {V : Type 0} where
  -- The registry after the deregistrations of `plugin.deregister`, in their order.
  unfoldable pub deregister_plugins : List Text → Plugins V → Plugins V
  deregister_plugins [] plugins = plugins
  deregister_plugins (id ∷ ids) plugins = deregister_plugins ids (deregister_plugin id plugins).1

  get-deregister_plugins :
      (ids : List Text) (plugins : Plugins V) (id : Text)
      → get (deregister_plugins ids plugins) id ≡ (if listed ids id then none else get plugins id)
  unfolding deregister_plugins deregister_plugin
  get-deregister_plugins [] plugins id = refl
  get-deregister_plugins (j ∷ ids) plugins id =
      ground (arith, get-deregister_plugins ids (remove plugins j) id, get-remove plugins j id)

  -- The ping of a plugin fails in the check, for the third time since it last responded, or the
  -- sixth and so on.
  abbrev pub is_third : Check V → List (Check V) → Text → Bool
  is_third c cs id = is_failed (ping c id) && (trailing (pings (c ∷ cs) id) % 3 == 0)

module _ {V : Type 0} where
  -- The plugin of a capability is among those listed.
  abbrev pub is_of : List Text → ToolEntry V → Bool
  is_of ids t = listed ids t.plugin_id

  untouched : (o : Option (ToolEntry V)) → o ≡ (if holds (is_of []) o then none else o)
  untouched none = refl
  untouched (some t) = refl

  either :
      (j : Text) (ids : List Text) (o : Option (ToolEntry V))
      → (let left = if holds (λ t. text_eq t.plugin_id j) o then none else o in
          if holds (is_of ids) left then none else left)
        ≡ (if holds (is_of (j ∷ ids)) o then none else o)
  either j ids none = refl
  either j ids (some t) =
      rw (text_eq-sym t.plugin_id j) (elim (Bool-cases (text_eq j t.plugin_id)) [
        | inl theirs ↦ rw theirs refl
        | inr other ↦ rw other refl
      ])

  module _ {W : Type 0} (backend : Backend V W) where
    -- The capabilities after the deregistrations of `plugin.deregister`, in their order.
    unfoldable pub deregister_owned : List Text → Tools V × W → Tools V × W
    deregister_owned [] s = s
    deregister_owned (id ∷ ids) s = deregister_owned ids (deregister_by_plugin backend id s).1

    get-deregister_owned :
        (ids : List Text) (tools : Tools V) (w : W) (id : Text)
        → IsTools tools
        → get (deregister_owned ids (tools, w)).0 id
          ≡ (if holds (is_of ids) (get tools id) then none else get tools id)
    unfolding deregister_owned
    get-deregister_owned [] tools w id valid = untouched (get tools id)
    get-deregister_owned (j ∷ ids) tools w id valid =
        let after = (deregister_by_plugin backend j (tools, w)).1 in
        let (_, left, valid') = deregister_by_plugin_lem backend j tools w id valid in
        get-deregister_owned ids after.0 after.1 id valid'
        ∙ ap (λ o. if holds (is_of ids) o then none else o) left
        ∙ either j ids (get tools id)

    -- After any checks of registries, each plugin under its own id once: once what a check
    -- publishes is handled, any registry has lost exactly the plugins whose ping failed in the
    -- check for the third time since they last responded, or the sixth and so on, and any cache
    -- with each capability under its own id once has lost exactly their capabilities, also when
    -- the database fails.
    pub run_health_check-cleanup :
        (c : Check V) (cs : List (Check V)) (plugins : Plugins V) (tools : Tools V) (w : W)
        (id tool_id : Text)
        → AllRegistries (c ∷ cs)
        → IsTools tools
        → let dead = (run_health_check c (after_checks cs)).0 in
          (get (deregister_plugins dead plugins) id
            ≡ (if is_third c cs id then none else get plugins id))
          × (get (deregister_owned dead (tools, w)).0 tool_id ≡ (
              if holds (λ t. is_third c cs t.plugin_id) (get tools tool_id)
              then none
              else get tools tool_id))
    run_health_check-cleanup c cs plugins tools w id tool_id valid well =
        let dead = (run_health_check c (after_checks cs)).0 in
        let third = run_health_check-third c cs in
        (
          get-deregister_plugins dead plugins id
              ∙ ap (λ b. if b then none else get plugins id) (third id valid),
          get-deregister_owned dead tools w tool_id well
              ∙ ap
                  (λ f.
                    if holds (λ t. f t.plugin_id) (get tools tool_id)
                    then none
                    else get tools tool_id)
                  (fun_ext (λ owner. third owner valid)),
        )
