-- ===== src/Examples/RouteRuns.antt =====
-- The choice of a provider at concrete inputs.
use seidrum.Base.{Text, codes, contains, starts_with, true, some, [], ◌∷◌, ◌≡◌, refl}
use seidrum.Routing.{
  ollama, open_ai, default_config, intelligent, RequestProfile, named, preferred,
  select_intelligent, select_provider,
}
use seidrum.Routing.Privacy.{
  here, there, Mentions, Mentions-mentions, remote_words, IsSecret, secret_scope,
  select_provider_stays,
}

-- Texts that are in lower case already.
abbrev same_case : Text → Text
same_case s = s

abbrev check_up : RequestProfile
check_up = record {
  tool_count = 8;
  message_count = 30;
  estimated_tokens = 20000;
  has_system_prompt = true;
  scope = some (codes "medical/records");
  routing_strategy = codes "best-first";
  model_preferences = codes "mistral-7b" ∷ [];
}

mistral-remote : ¬ Mentions (codes "mistral-7b") remote_words
unfolding contains starts_with
mistral-remote m = let found = Mentions-mentions (codes "mistral-7b") remote_words m in cc found

check_up-IsSecret : IsSecret same_case check_up
check_up-IsSecret = secret_scope refl (there (there (here ([], codes "/records", refl))))

select_provider_stays_example :
    select_provider same_case check_up (intelligent default_config) ≡ ollama
select_provider_stays_example =
    select_provider_stays same_case check_up default_config refl check_up-IsSecret
      (mistral-remote, tt)

-- A preference for a model comes before the privacy of the scope.
preference_test :
    select_provider same_case
      (record check_up { model_preferences = codes "gpt-4" ∷ [] })
      (intelligent default_config)
    ≡ open_ai
unfolding select_provider select_intelligent preferred named contains starts_with
preference_test = refl
