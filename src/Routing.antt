-- ===== src/Routing.antt =====
-- The choice of an LLM provider, crates/plugins/seidrum-llm-router/src/routing.rs. Lower-casing of
-- Unicode text is a parameter.
pub mod Privacy
use seidrum.Base.{
  ℕ, if◌then◌else◌, ltb, ◌==◌, Text, codes, text_eq, contains, any, Bool, true, false, ◌&&◌, ◌||◌,
  Option, none, some, List, [], ◌∷◌,
}

pub data Provider : Type 0 where
  google open_ai anthropic ollama : Provider

-- `Provider::name`.
abbrev pub name : Provider → Text
name google = codes "google"
name open_ai = codes "openai"
name anthropic = codes "anthropic"
name ollama = codes "ollama"

abbrev pub nats_subject : Provider → Text
nats_subject google = codes "llm.provider.google"
nats_subject open_ai = codes "llm.provider.openai"
nats_subject anthropic = codes "llm.provider.anthropic"
nats_subject ollama = codes "llm.provider.ollama"

pub record IntelligentRoutingConfig : Type 0 where
  pub tool_heavy : Provider
  pub simple : Provider
  pub complex : Provider
  pub private_provider : Provider
  pub fallback : Provider

abbrev pub default_config : IntelligentRoutingConfig
default_config = record {
  tool_heavy = google;
  simple = ollama;
  complex = anthropic;
  private_provider = ollama;
  fallback = google;
}

pub data RoutingStrategy : Type 0 where
  fixed : Provider → RoutingStrategy
  fallback_list : List Provider → RoutingStrategy
  intelligent : IntelligentRoutingConfig → RoutingStrategy

pub record RequestProfile : Type 0 where
  pub tool_count : ℕ
  pub message_count : ℕ
  pub estimated_tokens : ℕ
  pub has_system_prompt : Bool
  pub scope : Option Text
  pub routing_strategy : Text
  pub model_preferences : List Text

-- Some word occurs in the text.
abbrev pub mentions : List Text → Text → Bool
mentions words text = any (λ w. contains w text) words

abbrev pub sensitive_words : List Text
sensitive_words =
    codes "private"
    ∷ codes "personal"
    ∷ codes "medical"
    ∷ codes "financial"
    ∷ codes "health"
    ∷ codes "legal"
    ∷ []

-- The provider that a preference names, in lower case.
unfoldable pub named : Text → Option Provider
named lower =
    if mentions (codes "gpt" ∷ codes "openai" ∷ []) lower
    then some open_ai
    else if mentions (codes "claude" ∷ codes "anthropic" ∷ []) lower
    then some anthropic
    else if mentions (codes "gemini" ∷ codes "google" ∷ []) lower
    then some google
    else if mentions (codes "llama" ∷ codes "ollama" ∷ codes "local" ∷ codes "mistral" ∷ []) lower
    then some ollama
    else none

abbrev pub or_else : Option Provider → Option Provider → Option Provider
or_else none rest = rest
or_else (some p) rest = some p

abbrev pub or_provider : Option Provider → Provider → Provider
or_provider none p = p
or_provider (some p) q = p

module _ (to_lowercase : Text → Text) where
  unfoldable pub preferred : List Text → Option Provider
  preferred [] = none
  preferred (pref ∷ prefs) = or_else (named (to_lowercase pref)) (preferred prefs)

  abbrev pub is_sensitive : Option Text → Bool
  is_sensitive none = false
  is_sensitive (some scope) = mentions sensitive_words (to_lowercase scope)

  abbrev pub is_private : RequestProfile → Bool
  is_private r =
      (text_eq r.routing_strategy (codes "private") || text_eq r.routing_strategy (codes "local"))
      || is_sensitive r.scope

  abbrev pub by_characteristics : RequestProfile → IntelligentRoutingConfig → Provider
  by_characteristics r config =
      if ltb 3 r.tool_count
      then config.tool_heavy
      else if ltb 10000 r.estimated_tokens || ltb 20 r.message_count
      then config.complex
      else if ltb r.estimated_tokens 1000 && (r.tool_count == 0)
      then config.simple
      else config.fallback

  unfoldable pub select_intelligent : RequestProfile → IntelligentRoutingConfig → Provider
  select_intelligent r config =
      or_provider (preferred r.model_preferences)
        (if is_private r then config.private_provider else by_characteristics r config)

  abbrev pub first_or_google : List Provider → Provider
  first_or_google [] = google
  first_or_google (p ∷ ps) = p

  unfoldable pub select_provider : RequestProfile → RoutingStrategy → Provider
  select_provider r (fixed p) = p
  select_provider r (fallback_list ps) = first_or_google ps
  select_provider r (intelligent config) = select_intelligent r config
