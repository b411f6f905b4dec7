-- ===== src/Routing/Privacy.antt =====
-- Where the private requests of crates/plugins/seidrum-llm-router/src/routing.rs go.
use seidrum.Base.{
  Text, codes, text_eq_refl, contains, Occurs, contains-Occurs, Occurs-contains, All, Bool-cases,
  true, false, none, some, List, [], ◌∷◌, ◌≡◌, refl, ◌⊎◌, inl, inr, arith,
}
use seidrum.Routing.{
  ollama, IntelligentRoutingConfig, intelligent, RequestProfile, mentions, named, preferred,
  is_private, select_intelligent, select_provider,
}

-- One of the words occurs in the text.
pub data Mentions (text : Text) : List Text → Type 0 where
  here : {word : Text} {words : List Text} → Occurs word text → Mentions text (word ∷ words)
  there : {word : Text} {words : List Text} → Mentions text words → Mentions text (word ∷ words)

pub Mentions-mentions :
    (text : Text) (words : List Text) → Mentions text words → mentions words text ≡ true
Mentions-mentions text [] m = elim m [ ]
Mentions-mentions text (word ∷ words) (here occurs) =
    ground (arith, Occurs-contains word text occurs)
Mentions-mentions text (word ∷ words) (there m) = ground (arith, Mentions-mentions text words m)

mentions-Mentions :
    (text : Text) (words : List Text) → mentions words text ≡ true → Mentions text words
mentions-Mentions text [] h = cc
mentions-Mentions text (word ∷ words) h = elim (Bool-cases (contains word text)) [
  | inl found ↦ here (contains-Occurs word text found)
  | inr other ↦ there (mentions-Mentions text words (ground arith))
]

-- Words for the providers away from this machine.
abbrev pub remote_words : List Text
remote_words =
    codes "gpt"
    ∷ codes "openai"
    ∷ codes "claude"
    ∷ codes "anthropic"
    ∷ codes "gemini"
    ∷ codes "google"
    ∷ []

unmentioned :
    (text : Text) (words : List Text) → ¬ Mentions text words → mentions words text ≡ false
unmentioned text words absent = elim (Bool-cases (mentions words text)) [
  | inl found ↦ absurd (absent (mentions-Mentions text words found))
  | inr other ↦ other
]

named-IsLocal :
    (text : Text) → ¬ Mentions text remote_words → (named text ≡ none) ⊎ (named text ≡ some ollama)
unfolding named
named-IsLocal text absent =
    let no_remote = unmentioned text remote_words absent in ground (arith, no_remote)

module _ (to_lowercase : Text → Text) where
  -- The strategy is private or local, or the scope has a word for something private.
  pub data IsSecret (r : RequestProfile) : Type 0 where
    private_strategy : r.routing_strategy ≡ codes "private" → IsSecret r
    local_strategy : r.routing_strategy ≡ codes "local" → IsSecret r
    secret_scope :
        {scope : Text}
        → r.scope ≡ some scope
        → Mentions (to_lowercase scope) (
            codes "private"
            ∷ codes "personal"
            ∷ codes "medical"
            ∷ codes "financial"
            ∷ codes "health"
            ∷ codes "legal"
            ∷ [])
        → IsSecret r

  IsSecret-is_private : (r : RequestProfile) → IsSecret r → is_private to_lowercase r ≡ true
  IsSecret-is_private r (private_strategy same) = rw (same, text_eq_refl (codes "private")) refl
  IsSecret-is_private r (local_strategy same) =
      rw (same, text_eq_refl (codes "local")) (ground arith)
  IsSecret-is_private r (secret_scope {scope} has m) =
      rw (has, Mentions-mentions (to_lowercase scope) _ m) (ground arith)

  -- No preference has a word for a provider away from this machine.
  abbrev pub AllLocal : List Text → Type 0
  AllLocal prefs = All (λ pref. ¬ Mentions (to_lowercase pref) remote_words) prefs

  preferred-AllLocal :
      (prefs : List Text)
      → AllLocal prefs
      → (preferred to_lowercase prefs ≡ none) ⊎ (preferred to_lowercase prefs ≡ some ollama)
  unfolding preferred
  preferred-AllLocal [] h = inl refl
  preferred-AllLocal (pref ∷ prefs) h = elim (named-IsLocal (to_lowercase pref) h.0) [
    | inl unnamed ↦ rw unnamed (preferred-AllLocal prefs h.1)
    | inr local ↦ rw local (inr refl)
  ]

  -- A request with a private or local strategy, or with private, personal, medical, financial,
  -- health or legal in its scope, stays with the local provider, whatever its tools, messages and
  -- tokens, if that is the private provider of the configuration and in no model preference there
  -- is gpt, openai, claude, anthropic, gemini or google. Both are read in lower case.
  pub select_provider_stays :
      (r : RequestProfile) (config : IntelligentRoutingConfig)
      → config.private_provider ≡ ollama
      → IsSecret r
      → AllLocal r.model_preferences
      → select_provider to_lowercase r (intelligent config) ≡ ollama
  unfolding select_provider select_intelligent
  select_provider_stays r config local secret h = elim (preferred-AllLocal r.model_preferences h) [
    | inl unnamed ↦ rw (unnamed, IsSecret-is_private r secret) local
    | inr named_local ↦ rw named_local refl
  ]
