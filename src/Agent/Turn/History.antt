-- ===== src/Agent/Turn/History.antt =====
-- `run_turn` of crates/core/seidrum-agent-runtime/src/lib.rs against the histories of `Progress`.
use seidrum.Agent.Turn.Writes.{State-kept, append_new-rule, execute_tool-Keeps}
use seidrum.Agent.Turn.Progress.{
  untouched, thinking, in_call, answered, next, begin, call, result, reply, not_yet, Frame, session,
  State, Stopped, Ended,
}
use seidrum.Agent.Action.{bind-rule, ◌>>=◌, Action}
use seidrum.Base.{
  ℕ, Text, Option, none, some, List, [], ◌∷◌, ◌++◌, ◌≡◌, refl, sym, subst, ◌∙◌, inl, inr, ap, zero,
  suc,
}
use seidrum.Store.{next_u64}
use seidrum.Error.{Result, ok, err}
use seidrum.Agent.{RuntimeError, TurnInput, ToolCall, ToolResult, TurnOutput, ProviderResponse}
use seidrum.Agent.Turns.{StoreLaws, View}
use seidrum.Agent.Turn.{
  AgentRuntime, execute_tool, append_new, call_record, result_record, answer_record, message_record,
  run_calls, respond, run_rounds, run_turn, request, next_sequence,
}

module _ {V W : Type 0} (rt : AgentRuntime V W) (view : View V W) (laws : StoreLaws rt.store view)
    (frame : Frame rt view) where
  module _ (input : TurnInput) where
    module _ (w0 : W) where
      AfterCalls : Result RuntimeError (ℕ × List ToolResult) × W → Type 0
      AfterCalls (ok (q, results), w) =
          State view input w0 (thinking results) w × (q ≡ next (session view input w))
      AfterCalls (err e, w) = Stopped view input w0 w

      run_calls-AfterCalls :
          (calls : List (ToolCall V)) (q : ℕ) (results : List ToolResult) (w : W)
          → State view input w0 (thinking results) w
          → q ≡ next (session view input w)
          → AfterCalls (run_calls rt input calls q results w)
      unfolding run_calls AfterCalls
      run_calls-AfterCalls [] q results w s numbered = (s, numbered)
      run_calls-AfterCalls (c ∷ calls) q results w s numbered =
          append_new-rule rt view laws frame input w0 AfterCalls (thinking results)
            (in_call c results) (λ k. call_record input k c) q _ w (λ id. refl)
            (λ id h. call c id h) s numbered
            (λ w1 s1 n1.
              let (r, w2) = execute_tool rt c w1 in
              let kept = execute_tool-Keeps rt view laws frame c w1 in
              append_new-rule rt view laws frame input w0 AfterCalls (in_call c results)
                (thinking (results ++ r ∷ [])) (λ k. result_record input k r) (next_u64 q) _ w2
                (λ id. refl) (λ id h. result r id h)
                (State-kept view input w0 (in_call c results) w1 w2 kept s1)
                (n1 ∙ ap next (sym (kept input.session_id)))
                (λ w3 s3 n3.
                  run_calls-AfterCalls calls (next_u64 (next_u64 q)) (results ++ r ∷ []) w3 s3 n3)
                (λ e w3 s3. (in_call c results, tt, s3)))
            (λ e w1 s1. (thinking results, tt, s1))

      respond-Ended :
          (continue : ℕ → List ToolResult → Action W TurnOutput)
          → ((q : ℕ) (results : List ToolResult) (w : W)
              → State view input w0 (thinking results) w
              → q ≡ next (session view input w)
              → Ended view input w0 (continue q results w))
          → (q : ℕ) (results : List ToolResult) (calls : List (ToolCall V)) (text : Option Text)
            (w : W)
          → State view input w0 (thinking results) w
          → q ≡ next (session view input w)
          → Ended view input w0 (respond rt input continue q results calls text w)
      unfolding AfterCalls
      respond-Ended continue ends q results calls (some text) w s numbered =
          append_new-rule rt view laws frame input w0 (Ended view input w0) (thinking results)
            (answered text results) (λ k. answer_record input k text) q _ w (λ id. refl)
            (λ id h. reply text id h) s numbered (λ w' s' n'. (text, results, refl, s'))
            (λ e w' s'. (thinking results, tt, s'))
      respond-Ended continue ends q results calls none w s numbered =
          let after = run_calls-AfterCalls calls q results w s numbered in
          bind-rule (Ended view input w0) (run_calls rt input calls q results) _ w
            (λ n w' did. let (s', n') = subst AfterCalls did after in ends n.0 n.1 w' s' n')
            (λ e w' did. subst AfterCalls did after)

      run_rounds-Ended :
          (rounds q : ℕ) (results : List ToolResult) (w : W)
          → State view input w0 (thinking results) w
          → q ≡ next (session view input w)
          → Ended view input w0 (run_rounds rt input rounds q results w)
      unfolding run_rounds
      run_rounds-Ended zero q results w s numbered = (thinking results, tt, s)
      run_rounds-Ended (suc rounds) q results w s numbered =
          let kept = frame.complete_keeps (request input results) w in
          let Same = λ (o : Result RuntimeError (ProviderResponse V) × W).
            (s : Text) → view o.1 s ≡ view w s in
          bind-rule (Ended view input w0) (rt.complete (request input results)) _ w
            (λ response w' did.
              let same = subst Same did kept in
              respond-Ended (run_rounds rt input rounds) (run_rounds-Ended rounds) q results
                response.tool_calls response.final_text w'
                (State-kept view input w0 (thinking results) w w' same s)
                (numbered ∙ ap next (sym (same input.session_id))))
            (λ e w' did. (
              thinking results,
              tt,
              State-kept view input w0 (thinking results) w w' (subst Same did kept) s,
            ))

      Numbers : Result RuntimeError ℕ × W → Type 0
      Numbers (ok q, w) = (w ≡ w0) × (q ≡ next (session view input w0))
      Numbers (err e, w) = w ≡ w0

    next_sequence-Numbers : (w0 : W) → Numbers w0 (next_sequence rt input.session_id w0)
    unfolding next_sequence Numbers
    next_sequence-Numbers w0 = elim (laws.records_view input.session_id w0) [
      | inl read ↦ rw read (refl, refl)
      | inr (e, failed) ↦ rw failed refl
    ]

    -- Over a store whose calls work whole or fail without effect, and with a provider, tools and
    -- ids that leave the turn records alone, `run_turn` only extends the history of its session as
    -- `History` allows: the user's message, then tool calls each followed by its result, then at
    -- most an answer, each record under the next number of the session. Other sessions keep their
    -- records. A turn that succeeds returns the output that belongs to the answer at the end of
    -- the history; one that fails has none.
    pub run_turn-Ended : (w : W) → Ended view input w (run_turn rt input w)
    unfolding run_turn Numbers
    run_turn-Ended w =
        let at = next_sequence-Numbers w in
        bind-rule (Ended view input w) (next_sequence rt input.session_id) _ w
          (λ q w1 did.
            let (here, numbered) = subst (Numbers w) did at in
            subst
              (λ v. Ended view input w (
                (append_new rt input (message_record input q) >>= λ _.
                run_rounds rt input rt.config.max_tool_iterations (next_u64 q) [])
                  v))
              (sym here)
              (append_new-rule rt view laws frame input w (Ended view input w) untouched
                (thinking []) (message_record input) q _ w (λ id. refl) (λ id h. begin id)
                (not_yet, λ s other. refl) numbered
                (λ w2 s2 n2.
                  run_rounds-Ended w rt.config.max_tool_iterations (next_u64 q) [] w2 s2 n2)
                (λ e w2 s2. (untouched, tt, s2))))
          (λ e w1 did. (
            untouched,
            tt,
            subst (State view input w untouched) (sym (subst (Numbers w) did at))
                (not_yet, λ s other. refl),
          ))
