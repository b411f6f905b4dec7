-- ===== src/Guardrails/Counts.antt =====
-- The counts of calls by tool and arguments in crates/core/seidrum-kernel/src/consciousness/guardrails.rs.
use seidrum.Base.{
  ℕ, ◌+◌, ◌%◌, ◌^◌, if◌then◌else◌, leb, Text, text_eq, text_eq→eq, text_eq_refl, Bool, true, false,
  Option, none, some, List, [], ◌∷◌, ◌≡◌, refl, sym, ap, ◌∙◌, arith, codes, ◌++◌,
}
use seidrum.Store.{next_u32}
use seidrum.Guardrails.{
  GuardrailState, count_call, crosses, record_turn, Call, record_calls, unless_stopped,
  GuardrailViolation,
}

abbrev pub call_key : Call → Text
call_key c = c.tool_name ++ codes ":" ++ c.arguments_hash

-- The count that is stored under a key.
abbrev pub stored : Text → List (Text × ℕ) → ℕ
stored key [] = 0
stored key ((k, n) ∷ history) = if text_eq k key then n else stored key history

-- How many of the calls have the key.
abbrev pub tally : Text → List Call → ℕ
tally key [] = 0
tally key (c ∷ calls) = (if text_eq (call_key c) key then 1 else 0) + tally key calls

-- A chain of tests that lets through passes all of them.
pub all_pass :
    {A B : Type 0} (a b c d : Bool) (v1 v2 v3 v4 : A) (x1 x2 x' : B)
    → ◌≡◌ {A = Option A × B}
        (if a
          then (some v1, x1)
          else if b
          then (some v2, x1)
          else if c
          then (some v3, x2)
          else if d
          then (some v4, x2)
          else (none, x2))
        (none, x')
    → (a ≡ false) × (c ≡ false) × (d ≡ false) × (x2 ≡ x')
all_pass true b c d v1 v2 v3 v4 x1 x2 x' h = cc
all_pass false true c d v1 v2 v3 v4 x1 x2 x' h = cc
all_pass false false true d v1 v2 v3 v4 x1 x2 x' h = cc
all_pass false false false true v1 v2 v3 v4 x1 x2 x' h = cc
all_pass false false false false v1 v2 v3 v4 x1 x2 x' h = (refl, refl, refl, ap (λ o. o.1) h)

pub free_of :
    (continue : GuardrailState → Option GuardrailViolation × GuardrailState) (s' : GuardrailState)
    (o : Option GuardrailViolation × GuardrailState)
    → unless_stopped continue o ≡ (none, s')
    → (s1 : GuardrailState) × (o ≡ (none, s1)) × (continue s1 ≡ (none, s'))
free_of continue s' (none, s) h = (s, refl, h)
free_of continue s' (some v, s) h = cc

stored-count_call :
    (key made : Text) (history : List (Text × ℕ))
    → stored key (count_call made history).1 % 2 ^ 32
      ≡ (stored key history + (if text_eq made key then 1 else 0)) % 2 ^ 32
unfolding count_call next_u32
stored-count_call key made [] = ground arith
stored-count_call key made ((k, n) ∷ history) = ground (
  arith,
  stored-count_call key made history,
  text_eq→eq k made,
  text_eq→eq k key,
  text_eq→eq made key,
  text_eq_refl k,
  text_eq_refl made,
  text_eq_refl key,
)

stored-record_turn :
    (key : Text) (c : Call) (s s' : GuardrailState)
    → record_turn c.elapsed c.tool_name c.arguments_hash s ≡ (none, s')
    → stored key s'.tool_call_history % 2 ^ 32
      ≡ (stored key s.tool_call_history + (if text_eq (call_key c) key then 1 else 0)) % 2 ^ 32
unfolding record_turn
stored-record_turn key c s s' h =
    let (_, _, _, is) =
      all_pass (leb s.config.turn_limit (next_u32 s.turn_count))
        (leb s.config.time_limit_seconds c.elapsed)
        (leb s.config.loop_detection_threshold (count_call (call_key c) s.tool_call_history).0)
        (crosses s.config.hitl_after_turns (next_u32 s.turn_count)) _ _ _ _ _ _ s' h in
    ap (λ g. stored key g.tool_call_history % 2 ^ 32) (sym is)
    ∙ stored-count_call key (call_key c) s.tool_call_history

add_mod : (x y a b : ℕ) → x % 2 ^ 32 ≡ (y + a) % 2 ^ 32 → (x + b) % 2 ^ 32 ≡ (y + (a + b)) % 2 ^ 32
add_mod x y a b h = omega arith

-- The calls that no guardrail stops are counted, each under its key.
pub record_calls-tally :
    (key : Text) (calls : List Call) (s s' : GuardrailState)
    → record_calls calls s ≡ (none, s')
    → stored key s'.tool_call_history % 2 ^ 32
      ≡ (stored key s.tool_call_history + tally key calls) % 2 ^ 32
unfolding record_calls
record_calls-tally key [] s s' h =
    ap (λ g. stored key g.tool_call_history % 2 ^ 32) (sym (ap (λ o. o.1) h))
    ∙ ap (λ n. n % 2 ^ 32) (omega arith)
record_calls-tally key (c ∷ calls) s s' h =
    let (s1, free, rest) =
      free_of (record_calls calls) s' (record_turn c.elapsed c.tool_name c.arguments_hash s) h in
    record_calls-tally key calls s1 s' rest
    ∙ add_mod (stored key s1.tool_call_history) (stored key s.tool_call_history)
        (if text_eq (call_key c) key then 1 else 0) (tally key calls)
        (stored-record_turn key c s s1 free)
