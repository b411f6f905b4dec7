-- ===== src/Guardrails/Runs.antt =====
-- Calls that no guardrail of crates/core/seidrum-kernel/src/consciousness/guardrails.rs stops.
use seidrum.Base.{
  ℕ, suc, ◌+◌, ◌≤◌, ◌<◌, ◌^◌, ◌%◌, leb, Text, text_eq, false, Bool-cases, Option, none, some, List,
  [], ◌∷◌, ◌≡◌, refl, subst, ap, ◌∙◌, ◌⊎◌, inl, inr, arith, length,
}
use seidrum.Store.{next_u32}
use seidrum.Guardrails.Counts.{all_pass, free_of, stored, tally, call_key, record_calls-tally}
use seidrum.Guardrails.{
  GuardrailState, count_call, crosses, record_turn, Call, GuardrailConfig, record_calls,
}

-- Every call was counted fewer times than `n`.
abbrev pub AllBelow : ℕ → List (Text × ℕ) → Type 0
AllBelow n [] = Unit
AllBelow n ((k, c) ∷ history) = (c < n) × AllBelow n history

AllBelow-count_call :
    (n : ℕ) (key : Text) (history : List (Text × ℕ))
    → AllBelow n history
    → (count_call key history).0 < n
    → AllBelow n (count_call key history).1
unfolding count_call
AllBelow-count_call n key [] h below = (below, tt)
AllBelow-count_call n key ((k, c) ∷ history) h below = elim (Bool-cases (text_eq k key)) [
  | inl same ↦ rw same ((rw same at below), h.1)
  | inr other ↦ rw other (h.0, AllBelow-count_call n key history h.1 (rw other at below))
]

-- The counts and the turns stay in the words that hold them.
pub record IsBounded (s : GuardrailState) : Type 0 where
  pub limit : s.config.turn_limit < 2 ^ 32
  pub turns : suc s.turn_count < 2 ^ 32
  pub counts : AllBelow s.config.loop_detection_threshold s.tool_call_history

-- The turn at which a human is asked is behind, or still ahead after `n` turns more.
abbrev pub NotCrossed : Option ℕ → ℕ → ℕ → Type 0
NotCrossed none turns n = Unit
NotCrossed (some after) turns n = (after ≤ turns) ⊎ (turns + n < after)

-- What `n` calls from `turns` turns on leave, when none is stopped.
abbrev pub Passed : GuardrailConfig → ℕ → ℕ → GuardrailState → Type 0
Passed config turns n s' =
    (s'.turn_count ≡ turns + n)
    × ((n ≡ 0) ⊎ (s'.turn_count < config.turn_limit))
    × NotCrossed config.hitl_after_turns turns n
    × (s'.config ≡ config)
    × AllBelow config.loop_detection_threshold s'.tool_call_history

crosses-one :
    (after : Option ℕ) (turns : ℕ) → crosses after (suc turns) ≡ false → NotCrossed after turns 1
crosses-one none turns h = tt
crosses-one (some after) turns h = ground arith

next_turn : (n : ℕ) → suc n < 2 ^ 32 → next_u32 n ≡ suc n
unfolding next_u32
next_turn n h = omega arith

leb-false : (a b : ℕ) → leb a b ≡ false → b < a
leb-false a b h = ground arith

record_turn-Passed :
    (c : Call) (s s' : GuardrailState)
    → IsBounded s
    → record_turn c.elapsed c.tool_name c.arguments_hash s ≡ (none, s')
    → Passed s.config s.turn_count 1 s'
unfolding record_turn
record_turn-Passed c s s' bounded h =
    let (turns, loops, crossing, is) =
      all_pass (leb s.config.turn_limit (next_u32 s.turn_count))
        (leb s.config.time_limit_seconds c.elapsed)
        (leb s.config.loop_detection_threshold (count_call (call_key c) s.tool_call_history).0)
        (crosses s.config.hitl_after_turns (next_u32 s.turn_count)) _ _ _ _ _ _ s' h in
    let one = next_turn s.turn_count bounded.turns in
    subst (Passed s.config s.turn_count 1) is (
      one ∙ omega arith,
      inr (leb-false s.config.turn_limit (next_u32 s.turn_count) turns),
      crosses-one s.config.hitl_after_turns s.turn_count (rw one at crossing),
      refl,
      AllBelow-count_call s.config.loop_detection_threshold (call_key c) s.tool_call_history
          bounded.counts (leb-false s.config.loop_detection_threshold _ loops),
    )

le-or-lt : (a b : ℕ) → (a ≤ b) ⊎ (b < a)
le-or-lt a b = ground (arith, Bool-cases (leb a b))

NotCrossed-suc :
    (after : Option ℕ) (turns n middle : ℕ)
    → middle ≡ turns + 1
    → NotCrossed after turns 1
    → NotCrossed after middle n
    → NotCrossed after turns (suc n)
NotCrossed-suc none turns n middle e h h' = tt
NotCrossed-suc (some after) turns n middle e h h' = ground arith

NotCrossed-zero : (after : Option ℕ) (turns : ℕ) → NotCrossed after turns 0
NotCrossed-zero none turns = tt
NotCrossed-zero (some after) turns = ground (arith, le-or-lt after turns)

Passed-suc :
    (config : GuardrailConfig) (turns n : ℕ) (s s' : GuardrailState)
    → Passed config turns 1 s
    → Passed config s.turn_count n s'
    → Passed config turns (suc n) s'
Passed-suc config turns n s s' (count, below, hitl, same, all)
      (count', below', hitl', same', all') =
    (
      omega arith,
      inr (ground (arith, below, below', count, count')),
      NotCrossed-suc config.hitl_after_turns turns n s.turn_count count hitl hitl',
      same',
      all',
    )

Passed-IsBounded :
    (s s' : GuardrailState) → IsBounded s → Passed s.config s.turn_count 1 s' → IsBounded s'
Passed-IsBounded s s' bounded (count, below, hitl, same, all) = record {
  limit = rw same bounded.limit;
  turns = ground (arith, below, bounded.limit);
  counts = rw same all;
}

record_calls-limits :
    (calls : List Call) (s s' : GuardrailState)
    → IsBounded s
    → record_calls calls s ≡ (none, s')
    → Passed s.config s.turn_count (length calls) s'
unfolding record_calls
record_calls-limits [] s s' bounded h = subst (Passed s.config s.turn_count 0) (ap (λ o. o.1) h) (
  omega arith,
  inl refl,
  NotCrossed-zero s.config.hitl_after_turns s.turn_count,
  refl,
  bounded.counts,
)
record_calls-limits (c ∷ calls) s s' bounded h =
    let (s1, free, rest) =
      free_of (record_calls calls) s' (record_turn c.elapsed c.tool_name c.arguments_hash s) h in
    let first = record_turn-Passed c s s1 bounded free in
    Passed-suc s.config s.turn_count (length calls) s1 s' first (
      subst (λ g. Passed g s1.turn_count (length calls) s') first.3
        (record_calls-limits calls s1 s' (Passed-IsBounded s s1 bounded first) rest))

-- From a state whose counts are below the loop threshold and whose words do not overflow, calls
-- that no guardrail stops are each counted as one turn; then the turns, if there was a call, are
-- below the turn limit, the turn at which a human is asked is still ahead or was already reached
-- before the calls, and every count is still below the loop threshold. The count of each tool and
-- arguments has grown by the number of their calls, modulo 2^32.
pub record_calls-Passed :
    (calls : List Call) (s s' : GuardrailState)
    → IsBounded s
    → record_calls calls s ≡ (none, s')
    → Passed s.config s.turn_count (length calls) s'
      × ((key : Text)
          → stored key s'.tool_call_history % 2 ^ 32
            ≡ (stored key s.tool_call_history + tally key calls) % 2 ^ 32)
record_calls-Passed calls s s' bounded h =
    (record_calls-limits calls s s' bounded h, λ key. record_calls-tally key calls s s' h)
