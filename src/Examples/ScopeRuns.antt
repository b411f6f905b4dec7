-- ===== src/Examples/ScopeRuns.antt =====
-- The resolution of scopes and the guardrails at concrete inputs.
use seidrum.Guardrails
use seidrum.Store.{next_u32}
use seidrum.Guardrails.Counts.{stored, tally}
use seidrum.Guardrails.Runs.{Passed, record_calls-Passed}
use seidrum.Guardrails.{
  Call, GuardrailState, default_user_conversation, record_calls, record_turn, count_call,
  add_provider_rounds,
}
use seidrum.Base.{
  ◌%◌, ◌^◌, ◌+◌, Text, if◌then◌else◌, Text, codes, text_eq, Bool-cases, Option, none, some, List,
  [], ◌∷◌, ◌≡◌, refl, inl, inr, arith,
}
use seidrum.Error.{ok}
use seidrum.Scope.{ScopeStore, ResolvedScopes, links, resolve_scopes}
use seidrum.Scope.Reach.{Allows}
use seidrum.Scope.Ends.{Covers, resolve_scopes_decides}

-- A document, the string or the array in it.
data Doc : Type 0 where
  scope : Text → List Text → Doc
  rules : List Text → Doc
  array : List Text → Doc
  string : Text → Doc

abbrev get_key : Doc → Text → Option Doc
get_key (scope parent reads) key =
    if text_eq key (codes "parent_scope") then some (string parent) else some (rules reads)
get_key (rules reads) key = some (array reads)
get_key _ key = none

abbrev string_of : Doc → Option Text
string_of (string s) = some s
string_of _ = none

abbrev strings : List Text → List Doc
strings [] = []
strings (s ∷ ss) = string s ∷ strings ss

abbrev array_of : Doc → Option (List Doc)
array_of (array ss) = some (strings ss)
array_of _ = none

-- `job` lies in `work`, and `work` and `home` may read each other.
abbrev documents : Text → Option Doc
documents key =
    if text_eq (codes "job") key
    then some (scope (codes "work") [])
    else if text_eq (codes "work") key
    then some (scope [] (codes "home" ∷ []))
    else if text_eq (codes "home") key
    then some (scope [] (codes "work" ∷ []))
    else none

abbrev db : ScopeStore Doc (Unit {0})
db = record {
  get_document = λ key. ok (documents key);
  get = get_key;
  as_str = string_of;
  as_array = array_of;
}

abbrev keys : List Text
keys = codes "job" ∷ codes "work" ∷ codes "home" ∷ []

db-Covers : Covers db keys
unfolding links
db-Covers k = elim (Bool-cases (text_eq (codes "job") k)) [
  | inl job ↦ inl (rw job refl)
  | inr no_job ↦ elim (Bool-cases (text_eq (codes "work") k)) [
    | inl work ↦ inl (rw (no_job, work) refl)
    | inr no_work ↦ elim (Bool-cases (text_eq (codes "home") k)) [
      | inl home ↦ inl (rw (no_job, no_work, home) refl)
      | inr no_home ↦ inr (rw (no_job, no_work, no_home) refl)
    ]
  ]
]

resolve_scopes_decides_example :
    (r : ResolvedScopes) × (resolve_scopes db 8 (codes "job") (codes "gone" ∷ []) ≡ some r)
    × Allows db (codes "job") (codes "gone" ∷ []) r
unfolding links text_eq
resolve_scopes_decides_example =
    resolve_scopes_decides db keys db-Covers 8 (codes "job") (codes "gone" ∷ []) (omega arith)

-- Two calls of one conversation.
abbrev first_call : Call
first_call = record { elapsed = 1; tool_name = codes "search"; arguments_hash = codes "h1" }

abbrev second_call : Call
second_call = record { elapsed = 2; tool_name = codes "search"; arguments_hash = codes "h2" }

abbrev conversation : GuardrailState
conversation = Guardrails.new default_user_conversation

abbrev after_calls : GuardrailState
after_calls = record conversation {
  turn_count = 2;
  tool_call_history = (codes "search:h1", 1) ∷ (codes "search:h2", 1) ∷ [];
}

record_calls-Passed_example :
    Passed default_user_conversation 0 2 after_calls
    × ((key : Text)
        → stored key after_calls.tool_call_history % 2 ^ 32
          ≡ (stored key conversation.tool_call_history + tally key (first_call ∷ second_call ∷ []))
            % 2 ^ 32)
unfolding record_calls record_turn count_call text_eq next_u32
record_calls-Passed_example =
    record_calls-Passed (first_call ∷ second_call ∷ []) conversation after_calls
      (record { limit = omega arith; turns = omega arith; counts = tt }) refl

-- Rounds of the provider that pass the turn at which a human is to be asked: nobody is.
human_test :
    (record_turn 1
      (codes "t")
      (codes "h")
      (add_provider_rounds 5 (record conversation { turn_count = 18 }))).0
    ≡ none
unfolding record_turn count_call next_u32
human_test = refl
