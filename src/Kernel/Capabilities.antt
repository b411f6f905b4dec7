-- ===== src/Kernel/Capabilities.antt =====
-- The registry of capabilities, crates/core/seidrum-kernel/src/tool_registry/service.rs. The database and
-- the bus act on a world; they and JSON values are parameters.
pub mod Owned
pub mod Search
use seidrum.Base.{
  ℕ, if◌then◌else◌, Text, codes, text_eq, Bool, true, false, not, ◌&&◌, ◌||◌, Option, none, some,
  List, [], ◌∷◌, any, map, retain, take,
}
use seidrum.Base.Maps.{HashMap, get, insert, remove, values}
use seidrum.Base.Maps.Named.{names_of}
use seidrum.Error.{Result, ok, err}

pub record ToolEntry (V : Type 0) : Type 0 where
  pub tool_id : Text
  pub plugin_id : Text
  pub name : Text
  pub summary_md : Text
  pub manual_md : Text
  pub parameters : V
  pub call_subject : Text
  pub kind : Text

pub record ToolRegisterPayload (V : Type 0) : Type 0 where
  pub tool_id : Text
  pub plugin_id : Text
  pub name : Text
  pub summary_md : Text
  pub manual_md : Text
  pub parameters : V
  pub call_subject : Text
  pub kind : Text

pub record ToolSearchRequest : Type 0 where
  pub query_text : Text
  pub limit : Option ℕ
  pub kind_filter : Option Text

pub record ToolSummary (V : Type 0) : Type 0 where
  pub tool_id : Text
  pub name : Text
  pub summary_md : Text
  pub parameters : V
  pub kind : Text

pub record ToolDescribeResponse (V : Type 0) : Type 0 where
  pub tool_id : Text
  pub name : Text
  pub summary_md : Text
  pub manual_md : Text
  pub parameters : V
  pub plugin_id : Text
  pub call_subject : Text
  pub kind : Text

-- serde_json: a field, a field that is a string, and the empty object.
pub record Documents (V : Type 0) : Type 0 where
  pub field : V → Text → Option V
  pub string : V → Text → Option Text
  pub empty : V

-- The queries of the service, and its messages, which may be lost.
pub record Backend (V W : Type 0) : Type 0 where
  pub load : W → Result Text (List V) × W
  pub upsert : ToolRegisterPayload V → W → Result Text (Unit {0}) × W
  pub remove_plugin : Text → W → Result Text (Unit {0}) × W
  pub search : ToolSearchRequest → ℕ → W → Result Text (List (ToolSummary V)) × W
  pub publish_registered : ToolEntry V → W → W
  pub publish_deregistered : Text → Text → W → W

abbrev pub unwrap_or {ℓ} : {A : Type ℓ} → A → Option A → A
unwrap_or a none = a
unwrap_or a (some b) = b

abbrev pub default_kind : Text
default_kind = codes "tool"

abbrev pub Tools : Type 0 → Type 0
Tools V = HashMap (ToolEntry V)

abbrev pub meta_ids : List Text
meta_ids = codes "brain-query" ∷ codes "search-tools" ∷ codes "get-tool-manual" ∷ []

abbrev pub of_kind : Option Text → Text → Bool
of_kind none kind = true
of_kind (some filter) kind = text_eq kind filter || text_eq kind (codes "both")

module _ {V : Type 0} where
  abbrev pub entry_of : ToolRegisterPayload V → ToolEntry V
  entry_of p = record {
    tool_id = p.tool_id;
    plugin_id = p.plugin_id;
    name = p.name;
    summary_md = p.summary_md;
    manual_md = p.manual_md;
    parameters = p.parameters;
    call_subject = p.call_subject;
    kind = p.kind;
  }

  abbrev pub summary_of : ToolEntry V → ToolSummary V
  summary_of t = record {
    tool_id = t.tool_id;
    name = t.name;
    summary_md = t.summary_md;
    parameters = t.parameters;
    kind = t.kind;
  }

  abbrev pub description_of : Option (ToolEntry V) → Option (ToolDescribeResponse V)
  description_of none = none
  description_of (some t) = some (record {
    tool_id = t.tool_id;
    name = t.name;
    summary_md = t.summary_md;
    manual_md = t.manual_md;
    parameters = t.parameters;
    plugin_id = t.plugin_id;
    call_subject = t.call_subject;
    kind = t.kind;
  })

  abbrev pub handle_describe : Tools V → Text → Option (ToolDescribeResponse V)
  handle_describe tools tool_id = description_of (get tools tool_id)

  -- What the search in the cache keeps.
  abbrev pub is_offered : Option Text → ToolEntry V → Bool
  is_offered kind_filter t =
      not (any (λ m. text_eq m t.tool_id) meta_ids) && of_kind kind_filter t.kind

  abbrev pub from_cache : Tools V → ToolSearchRequest → ℕ → List (ToolSummary V)
  from_cache tools req limit =
      map summary_of (take limit (retain (is_offered req.kind_filter) (values tools)))

  -- `remove(tid)` for each id.
  unfoldable pub remove_each : List Text → Tools V → Tools V
  remove_each [] tools = tools
  remove_each (id ∷ ids) tools = remove_each ids (remove tools id)

  abbrev pub owned : Tools V → Text → List Text
  owned tools plugin_id = names_of (λ t. t.tool_id) (λ t. text_eq t.plugin_id plugin_id) tools

  module _ (docs : Documents V) where
    abbrev pub text_field : V → Text → Text
    text_field doc key = unwrap_or [] (docs.string doc key)

    abbrev pub entry_of_doc : V → ToolEntry V
    entry_of_doc doc = record {
      tool_id = text_field doc (codes "tool_id");
      plugin_id = text_field doc (codes "plugin_id");
      name = text_field doc (codes "name");
      summary_md = text_field doc (codes "summary_md");
      manual_md = text_field doc (codes "manual_md");
      parameters = unwrap_or docs.empty (docs.field doc (codes "parameters"));
      call_subject = text_field doc (codes "call_subject");
      kind = unwrap_or default_kind (docs.string doc (codes "kind"));
    }

    unfoldable pub load_each : List V → Tools V → Tools V
    load_each [] tools = tools
    load_each (doc ∷ rest) tools = load_each rest (
        if text_eq (text_field doc (codes "tool_id")) []
        then tools
        else insert tools (entry_of_doc doc).tool_id (entry_of_doc doc))

module _ {V W : Type 0} (backend : Backend V W) where
  abbrev pub loaded :
      Documents V → Tools V → Result Text (List V) × W → Result Text (Unit {0}) × (Tools V × W)
  loaded docs tools (ok rows, w) = (ok tt, (load_each docs rows tools, w))
  loaded docs tools (err e, w) = (err e, (tools, w))

  abbrev pub load_from_db : Documents V → Tools V × W → Result Text (Unit {0}) × (Tools V × W)
  load_from_db docs (tools, w) = loaded docs tools (backend.load w)

  abbrev pub announce : Option (ToolEntry V) → W → W
  announce none w = w
  announce (some t) w = backend.publish_registered t w

  abbrev pub upserted :
      ToolRegisterPayload V
      → Tools V
      → Result Text (Unit {0}) × W
      → Result Text (Unit {0}) × (Tools V × W)
  upserted p tools (err e, w) = (err e, (tools, w))
  upserted p tools (ok u, w) =
      let cached = insert tools p.tool_id (entry_of p) in
      (ok tt, (cached, announce (get cached p.tool_id) w))

  unfoldable pub register_capability :
      ToolRegisterPayload V → Tools V × W → Result Text (Unit {0}) × (Tools V × W)
  register_capability p (tools, w) = upserted p tools (backend.upsert p w)

  -- Registers each, up to the first that fails.
  abbrev pub and_then :
      (Tools V × W → Result Text (Unit {0}) × (Tools V × W))
      → Result Text (Unit {0}) × (Tools V × W)
      → Result Text (Unit {0}) × (Tools V × W)
  and_then continue (ok u, s) = continue s
  and_then continue (err e, s) = (err e, s)

  unfoldable pub register_each :
      List (ToolRegisterPayload V) → Tools V × W → Result Text (Unit {0}) × (Tools V × W)
  register_each [] s = (ok tt, s)
  register_each (p ∷ ps) s = and_then (register_each ps) (register_capability p s)

  unfoldable pub publish_each : List Text → Text → W → W
  publish_each [] plugin_id w = w
  publish_each (id ∷ ids) plugin_id w =
      publish_each ids plugin_id (backend.publish_deregistered id plugin_id w)

  -- Whether the database removes them or fails changes nothing else.
  abbrev pub tell_removed : List Text → Text → W → W
  tell_removed [] plugin_id w = w
  tell_removed (id ∷ ids) plugin_id w =
      publish_each (id ∷ ids) plugin_id (backend.remove_plugin plugin_id w).1

  unfoldable pub deregister_by_plugin : Text → Tools V × W → List Text × (Tools V × W)
  deregister_by_plugin plugin_id (tools, w) =
      let ids = owned tools plugin_id in
      (ids, (remove_each ids tools, tell_removed ids plugin_id w))

  abbrev pub found :
      Tools V
      → ToolSearchRequest
      → ℕ
      → Result Text (List (ToolSummary V)) × W
      → List (ToolSummary V) × W
  found tools req limit (ok (t ∷ ts), w) = (t ∷ ts, w)
  found tools req limit (ok [], w) = (from_cache tools req limit, w)
  found tools req limit (err e, w) = (from_cache tools req limit, w)

  unfoldable pub handle_search : Tools V → ToolSearchRequest → W → List (ToolSummary V) × W
  handle_search tools req w =
      let limit = unwrap_or 5 req.limit in found tools req limit (backend.search req limit w)
