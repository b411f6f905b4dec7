-- ===== src/Kernel/Capabilities/Owned.antt =====
-- Which capabilities there are, and whose, as crates/core/seidrum-kernel/src/tool_registry/service.rs
-- registers them and takes them away.
use seidrum.Base.{
  if◌then◌else◌, Text, codes, text_eq, Bool, true, false, Option, none, some, List, [], ◌∷◌, any,
  ◌≡◌, refl, ap, ◌∙◌, inl, inr, Bool-cases, arith,
}
use seidrum.Base.Maps.{
  get, insert, remove, get-insert, get-remove, IsKeyed, insert-IsKeyed, remove-IsKeyed,
}
use seidrum.Base.Maps.Named.{IsNamed, insert-IsNamed, remove-IsNamed, holds, any-names_of}
use seidrum.Error.{Result, ok, err}
use seidrum.Kernel.Capabilities.{
  ToolEntry, ToolRegisterPayload, Documents, Backend, Tools, entry_of, description_of,
  handle_describe, remove_each, owned, entry_of_doc, load_each, text_field, upserted,
  register_capability, deregister_by_plugin,
}

module _ {V : Type 0} where
  abbrev pub IsTools : Tools V → Type 0
  IsTools tools = IsKeyed tools × IsNamed (λ t. t.tool_id) tools

  insert-IsTools :
      (tools : Tools V) (t : ToolEntry V) → IsTools tools → IsTools (insert tools t.tool_id t)
  insert-IsTools tools t (keyed, named) =
      (insert-IsKeyed tools t.tool_id t keyed, insert-IsNamed (λ t. t.tool_id) tools t named)

  remove_each-IsTools :
      (ids : List Text) (tools : Tools V) → IsTools tools → IsTools (remove_each ids tools)
  unfolding remove_each
  remove_each-IsTools [] tools h = h
  remove_each-IsTools (id ∷ ids) tools (keyed, named) =
      remove_each-IsTools ids (remove tools id)
        (remove-IsKeyed tools id keyed, remove-IsNamed (λ t. t.tool_id) tools id named)

  get-remove_each :
      (ids : List Text) (tools : Tools V) (id : Text)
      → get (remove_each ids tools) id
        ≡ (if any (λ t. text_eq t id) ids then none else get tools id)
  unfolding remove_each
  get-remove_each [] tools id = refl
  get-remove_each (j ∷ ids) tools id =
      ground (arith, get-remove_each ids (remove tools j) id, get-remove tools j id)

  -- Loading rows of the database keeps the cache well formed.
  load_each-IsTools :
      (docs : Documents V) (rows : List V) (tools : Tools V)
      → IsTools tools
      → IsTools (load_each docs rows tools)
  unfolding load_each
  load_each-IsTools docs [] tools h = h
  load_each-IsTools docs (row ∷ rows) tools h =
      elim (Bool-cases (text_eq (text_field docs row (codes "tool_id")) [])) [
        | inl skipped ↦ rw skipped (load_each-IsTools docs rows tools h)
        | inr named ↦ rw named (
            load_each-IsTools docs rows
              (insert tools (entry_of_doc docs row).tool_id (entry_of_doc docs row))
              (insert-IsTools tools (entry_of_doc docs row) h))
      ]

module _ {V W : Type 0} where
  -- What a registration comes to: an error leaves the capabilities as they were; otherwise the id is
  -- described as the payload says, and no other id changes.
  abbrev pub Registered :
      ToolRegisterPayload V → Tools V → Result Text (Unit {0}) × (Tools V × W) → Type 0
  Registered p tools (err e, (after, w)) = after ≡ tools
  Registered p tools (ok u, (after, w)) =
      (id : Text)
      → handle_describe after id ≡ (
          if text_eq p.tool_id id
          then description_of (some (entry_of p))
          else handle_describe tools id)

module _ {V W : Type 0} (backend : Backend V W) where
  upserted-IsTools :
      (p : ToolRegisterPayload V) (tools : Tools V) (r : Result Text (Unit {0}) × W)
      → IsTools tools
      → IsTools (upserted backend p tools r).1.0
  upserted-IsTools p tools (ok u, w) h = insert-IsTools tools (entry_of p) h
  upserted-IsTools p tools (err e, w) h = h

  -- Registering capabilities keeps the cache well formed.
  register_capability-IsTools :
      (p : ToolRegisterPayload V) (tools : Tools V) (w : W)
      → IsTools tools
      → IsTools (register_capability backend p (tools, w)).1.0
  unfolding register_capability
  register_capability-IsTools p tools w h = upserted-IsTools p tools (backend.upsert p w) h

  described_if :
      (b : Bool) (t : ToolEntry V) (o : Option (ToolEntry V))
      → description_of (if b then some t else o)
        ≡ (if b then description_of (some t) else description_of o)
  described_if true t o = refl
  described_if false t o = refl

  upserted-Registered :
      (p : ToolRegisterPayload V) (tools : Tools V) (r : Result Text (Unit {0}) × W)
      → Registered p tools (upserted backend p tools r)
  upserted-Registered p tools (ok u, w) = λ id.
      ap description_of (get-insert tools p.tool_id (entry_of p) id)
      ∙ described_if (text_eq p.tool_id id) (entry_of p) (get tools id)
  upserted-Registered p tools (err e, w) = refl

  -- The registration of a capability that fails leaves the cache as it was; after one that
  -- succeeds, the id is described as the payload says, and every other id as before.
  pub register_capability-Registered :
      (p : ToolRegisterPayload V) (tools : Tools V) (w : W)
      → Registered p tools (register_capability backend p (tools, w))
  unfolding register_capability
  register_capability-Registered p tools w = upserted-Registered p tools (backend.upsert p w)

  -- Over a cache with each capability under its own id once, the deregistration of a plugin
  -- returns the ids of its capabilities, exactly those, takes exactly those away, also when the
  -- database fails, and the cache stays so.
  pub deregister_by_plugin_lem :
      (plugin_id : Text) (tools : Tools V) (w : W) (id : Text)
      → IsTools tools
      → let r = deregister_by_plugin backend plugin_id (tools, w) in
        (any (λ t. text_eq t id) r.0 ≡ holds (λ t. text_eq t.plugin_id plugin_id) (get tools id))
        × (get r.1.0 id ≡ (
            if holds (λ t. text_eq t.plugin_id plugin_id) (get tools id)
            then none
            else get tools id))
        × IsTools r.1.0
  unfolding deregister_by_plugin
  deregister_by_plugin_lem plugin_id tools w id (keyed, named) =
      let ids = owned tools plugin_id in
      let theirs =
        any-names_of (λ t. t.tool_id) (λ t. text_eq t.plugin_id plugin_id) tools id keyed named in
      (
        theirs,
        get-remove_each ids tools id ∙ ap (λ b. if b then none else get tools id) theirs,
        remove_each-IsTools ids tools (keyed, named),
      )
