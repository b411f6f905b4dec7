-- ===== src/Agent/Turn/Answers.antt =====
-- That `run_turn` of crates/core/seidrum-agent-runtime/src/lib.rs comes to its answer, when the store does
-- its work and the provider gets closer to an answer with every response.
use seidrum.Base.{
  ℕ, zero, suc, ◌≤◌, ◌<◌, Text, Option, none, some, List, [], ◌∷◌, ◌++◌, ◌≡◌, refl, subst, arith,
  ◌⊎◌, inl, inr, ap, sym, ◌∙◌,
}
use seidrum.Error.{Result, ok, err, ok_injective}
use seidrum.Store.{next_u64}
use seidrum.Agent.{
  RuntimeError, TurnInput, ToolCall, ToolResult, TurnOutput, ProviderRequest, ProviderResponse,
}
use seidrum.Agent.Action.{Action, bind-rule, ◌>>=◌, reading}
use seidrum.Agent.Turns.{StoredTurnRecord}
use seidrum.Agent.Turn.{
  AgentRuntime, execute_tool, next_sequence, append_new, call_record, result_record, answer_record,
  message_record, run_calls, request, respond, run_rounds, run_turn, answer,
}
use seidrum.Agent.Turn.Rounds.{Calm, execute_tool_calm}

module _ {V W : Type 0} (rt : AgentRuntime V W) where
  -- Every call of the store succeeds.
  pub record Reliable : Type 0 where
    pub append_ok : (r : StoredTurnRecord V) (w : W) → (rt.store.append r w).0 ≡ ok tt
    pub records_ok :
        (s : Text) (w : W) → (rs : List (StoredTurnRecord V)) × (rt.store.records s w ≡ ok rs)

  -- A response answers, or leaves fewer responses to come before one that does.
  abbrev pub Approaches : (W → ℕ) → Type 0
  Approaches left =
      (r : ProviderRequest) (w : W)
      → (response : ProviderResponse V) × ((rt.complete r w).0 ≡ ok response)
        × (left (rt.complete r w).1 ≤ left w)
        × (((text : Text) × (response.final_text ≡ some text))
            ⊎ (left (rt.complete r w).1 < left w))

module _ {W : Type 0} (left : W → ℕ) where
  abbrev Fine : {A : Type 0} → ℕ → Result RuntimeError A × W → Type 0
  Fine n (ok a, w) = left w ≤ n
  Fine n (err e, w) = ⊥

  Fine-of :
      {A : Type 0} (n : ℕ) (a : A) (o : Result RuntimeError A × W)
      → o.0 ≡ ok a
      → left o.1 ≤ n
      → Fine n o
  Fine-of n a (ok b, w) h l = l
  Fine-of n a (err e, w) h l = cc

  bind-Fine :
      {A B : Type 0} (k n : ℕ) (m : Action W A) (f : A → Action W B) (w : W)
      → Fine k (m w)
      → ((a : A) (w' : W) → m w ≡ (ok a, w') → left w' ≤ k → Fine n (f a w'))
      → Fine n ((m >>= f) w)
  bind-Fine k n m f w h next =
      bind-rule (Fine n) m f w (λ a w' did. next a w' did (subst (Fine k) did h))
        (λ e w' did. absurd (subst (Fine k) did h))

  Fine-result :
      {A : Type 0} (n : ℕ) (o : Result RuntimeError A × W) → Fine n o → (a : A) × (o.0 ≡ ok a)
  Fine-result n (ok a, w) h = (a, refl)
  Fine-result n (err e, w) h = absurd h

module _ {V W : Type 0} (rt : AgentRuntime V W) (left : W → ℕ) (calm : Calm rt left)
    (reliable : Reliable rt) (approaches : Approaches rt left) (input : TurnInput) where
  append_new-Fine :
      (make : Text → StoredTurnRecord V) (n : ℕ) (w : W)
      → left w ≤ n
      → Fine left n (append_new rt input make w)
  unfolding append_new
  append_new-Fine make n w h =
      let (id, w1) = rt.new_record_id w in
      Fine-of left n tt (rt.store.append (make id) w1) (reliable.append_ok (make id) w1)
        (omega (arith, calm.id_calm w, calm.append_calm (make id) w1))

  run_calls-Fine :
      (calls : List (ToolCall V)) (q : ℕ) (results : List ToolResult) (n : ℕ) (w : W)
      → left w ≤ n
      → Fine left n (run_calls rt input calls q results w)
  unfolding run_calls
  run_calls-Fine [] q results n w h = h
  run_calls-Fine (c ∷ calls) q results n w h =
      bind-Fine left n n (append_new rt input (call_record input q c)) _ w
        (append_new-Fine (call_record input q c) n w h)
        (λ u w1 did h1.
          let (r, w2) = execute_tool rt c w1 in
          bind-Fine left n n (append_new rt input (result_record input (next_u64 q) r)) _ w2
            (append_new-Fine (result_record input (next_u64 q) r) n w2
              (omega (arith, execute_tool_calm rt left calm c w1)))
            (λ u' w3 did' h3.
              run_calls-Fine calls (next_u64 (next_u64 q)) (results ++ r ∷ []) n w3 h3))

  answer-Fine :
      (q : ℕ) (results : List ToolResult) (text : Text) (n : ℕ) (w : W)
      → left w ≤ n
      → Fine left n (answer rt input q results text w)
  answer-Fine q results text n w h =
      bind-Fine left n n (append_new rt input (answer_record input q text)) _ w
        (append_new-Fine (answer_record input q text) n w h) (λ u w1 did h1. h1)

  -- A response that answers ends the loop, any other goes on with fewer left.
  respond-Fine :
      (continue : ℕ → List ToolResult → Action W TurnOutput) (n : ℕ)
      → (q : ℕ) (results : List ToolResult) (calls : List (ToolCall V)) (text : Option Text) (w : W)
      → left w ≤ n
      → ((t : Text) × (text ≡ some t))
        ⊎ ((q' : ℕ) (results' : List ToolResult) (w' : W)
            → left w' ≤ left w
            → Fine left n (continue q' results' w'))
      → Fine left n (respond rt input continue q results calls text w)
  respond-Fine continue n q results calls (some text) w h goes = answer-Fine q results text n w h
  respond-Fine continue n q results calls none w h (inl (t, none_is)) = cc
  respond-Fine continue n q results calls none w h (inr goes) =
      bind-Fine left (left w) n (run_calls rt input calls q results) _ w
        (run_calls-Fine calls q results (left w) w (omega arith))
        (λ next w1 did h1. goes next.0 next.1 w1 h1)

  run_rounds-Fine :
      (rounds q : ℕ) (results : List ToolResult) (n : ℕ) (w : W)
      → left w < rounds
      → left w ≤ n
      → Fine left n (run_rounds rt input rounds q results w)
  unfolding run_rounds
  run_rounds-Fine zero q results n w more h = omega arith
  run_rounds-Fine (suc rounds) q results n w more h =
      let (expected, good, lower, goes) = approaches (request input results) w in
      bind-Fine left (left w) n (rt.complete (request input results)) _ w
        (Fine-of left (left w) expected (rt.complete (request input results) w) good lower)
        (λ response w' did h'.
          respond-Fine (run_rounds rt input rounds) n q results response.tool_calls
            response.final_text w' (omega arith)
            (elim goes [
              | inl (t, is) ↦
                  inl
                    (t, ap (λ r. r.final_text) (ok_injective (sym (ap (λ o. o.0) did) ∙ good)) ∙ is)
              | inr less ↦ inr (λ q' results' w2 h2.
                  let less' = subst (λ v. left v < left w) (ap (λ o. o.1) did) less in
                  run_rounds-Fine rounds q' results' n w2 (omega arith) (omega arith))
            ]))

  next_sequence-Fine : (s : Text) (w : W) → Fine left (left w) (next_sequence rt s w)
  unfolding next_sequence
  next_sequence-Fine s w =
      let (rs, read) = reliable.records_ok s w in
      bind-Fine left (left w) (left w) (reading (rt.store.records s)) _ w
        (Fine-of left (left w) rs (rt.store.records s w, w) read (omega arith)) (λ xs w' did h. h)

  -- If every call of the store succeeds and each response of the provider answers or comes nearer
  -- to an answer, by a measure that is below the limit of iterations and that nothing raises,
  -- `run_turn` returns an output.
  pub run_turn_answers :
      (w : W)
      → left w < rt.config.max_tool_iterations
      → (out : TurnOutput) × ((run_turn rt input w).0 ≡ ok out)
  unfolding run_turn
  run_turn_answers w more = Fine-result left (left w) (run_turn rt input w) (
      bind-Fine left (left w) (left w) (next_sequence rt input.session_id) _ w
        (next_sequence-Fine input.session_id w)
        (λ q w1 did h1.
          bind-Fine left (left w) (left w) (append_new rt input (message_record input q)) _ w1
            (append_new-Fine (message_record input q) (left w) w1 h1)
            (λ u w2 did' h2.
              run_rounds-Fine rt.config.max_tool_iterations (next_u64 q) [] (left w) w2
                (omega arith) h2)))
