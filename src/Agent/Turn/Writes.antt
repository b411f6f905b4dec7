-- ===== src/Agent/Turn/Writes.antt =====
-- The writes of a turn of crates/core/seidrum-agent-runtime/src/lib.rs, one record at a time.
use seidrum.Agent.Turn.Progress.{
  Phase, next, next-append, History, Frame, session, Others, Wrote, OfSession, State,
}
use seidrum.Agent.Action.{bind-rule, ◌>>=◌, Action}
use seidrum.Base.{
  ℕ, Text, text_eq_refl, Option, none, some, [], ◌∷◌, ◌++◌, ◌≡◌, refl, sym, subst, ◌∙◌, inl, inr,
}
use seidrum.Store.{next_u64}
use seidrum.Error.{Result, ok, err}
use seidrum.Agent.{RuntimeError, TurnInput, ToolCall}
use seidrum.Agent.Turns.{StoredTurnRecord, StoreLaws, View, Keeps}
use seidrum.Agent.Turn.{AgentRuntime, ToolExecutor, get_tool, run_tool, execute_tool, append_new}

module _ {V W : Type 0} (view : View V W) (input : TurnInput) (w0 : W) where
  pub State-kept :
      (p : Phase V) (w w' : W)
      → ((s : Text) → view w' s ≡ view w s)
      → State view input w0 p w
      → State view input w0 p w'
  State-kept p w w' same (h, others) = (
    subst (History input (session view input w0) p) (sym (same input.session_id)) h,
    λ s other. same s ∙ others s other,
  )

module _ {V W : Type 0} (rt : AgentRuntime V W) (view : View V W) (laws : StoreLaws rt.store view)
    (frame : Frame rt view) where
  run_tool-Keeps :
      (t : Option (ToolExecutor V W)) (c : ToolCall V)
      → ((e : ToolExecutor V W) → t ≡ some e → Keeps view (e c))
      → Keeps view (run_tool t c)
  run_tool-Keeps none c keeps w s = refl
  run_tool-Keeps (some e) c keeps w s = keeps e refl w s

  pub execute_tool-Keeps : (c : ToolCall V) → Keeps view (execute_tool rt c)
  unfolding execute_tool
  execute_tool-Keeps c =
      run_tool-Keeps (get_tool rt.tools c.name) c (λ e h. frame.tool_keeps c.name e c h)

  module _ (input : TurnInput) where
    Wrote-ok :
        (make : Text → StoredTurnRecord V) (w : W) (o : Result RuntimeError (Unit {0}) × W)
        (id : Text)
        → o.0 ≡ ok tt
        → session view input o.1 ≡ session view input w ++ make id ∷ []
        → Others view input w o.1
        → Wrote view input make w o
    Wrote-ok make w (ok u, w') id h added others = ((id, added), others)
    Wrote-ok make w (err e, w') id h added others = cc

    Wrote-none :
        (make : Text → StoredTurnRecord V) (w : W) (o : Result RuntimeError (Unit {0}) × W)
        (e : RuntimeError)
        → o.0 ≡ err e
        → ((s : Text) → view o.1 s ≡ view w s)
        → Wrote view input make w o
    Wrote-none make w (ok u, w') e h same = cc
    Wrote-none make w (err e', w') e h same = same

    append_new-Wrote :
        (make : Text → StoredTurnRecord V)
        → OfSession view input make
        → (w : W) → Wrote view input make w (append_new rt input make w)
    unfolding append_new
    append_new-Wrote make own w =
        let (id, w1) = rt.new_record_id w in
        let kept = frame.id_keeps w in
        elim (laws.append_view (make id) w1) [
          | inl (done, at) ↦
              Wrote-ok make w (rt.store.append (make id) w1) id done
                (at input.session_id
                  ∙ rw (own id, text_eq_refl input.session_id, kept input.session_id) refl)
                (λ s other. at s ∙ rw (own id, other) (kept s))
          | inr (e, failed, at) ↦
              Wrote-none make w (rt.store.append (make id) w1) e failed (λ s. at s ∙ kept s)
        ]

    module _ (w0 : W) where
      -- A record that is stored takes the history on.
      State-Wrote :
          (p p' : Phase V) (make : ℕ → Text → StoredTurnRecord V) (q : ℕ) (w w' : W)
          → q ≡ next (session view input w)
          → ((id : Text)
              → History input (session view input w0) p (session view input w)
              → History input
                  (session view input w0)
                  p'
                  (session view input w ++ make (next (session view input w)) id ∷ []))
          → Wrote view input (make q) w (ok tt, w')
          → State view input w0 p w
          → State view input w0 p' w' × (next_u64 q ≡ next (session view input w'))
      State-Wrote p p' make q w w' numbered grow ((id, added), kept) (h, others) = (
        (rw (added, numbered) (grow id h), λ s other. kept s other ∙ others s other),
        rw (added, numbered) (next-append (session view input w) _),
      )

      -- A record is stored and the history grows, or nothing is.
      pub append_new-rule :
          {B : Type 0} (P : Result RuntimeError B × W → Type 0) (p p' : Phase V)
          (make : ℕ → Text → StoredTurnRecord V) (q : ℕ) (f : Unit {0} → Action W B) (w : W)
          → OfSession view input (make q)
          → ((id : Text)
              → History input (session view input w0) p (session view input w)
              → History input
                  (session view input w0)
                  p'
                  (session view input w ++ make (next (session view input w)) id ∷ []))
          → State view input w0 p w
          → q ≡ next (session view input w)
          → ((w' : W)
              → State view input w0 p' w'
              → next_u64 q ≡ next (session view input w')
              → P (f tt w'))
          → ((e : RuntimeError) (w' : W) → State view input w0 p w' → P (err e, w'))
          → P ((append_new rt input (make q) >>= f) w)
      append_new-rule P p p' make q f w own grow s numbered good bad =
          let wrote = append_new-Wrote (make q) own w in
          bind-rule P (append_new rt input (make q)) f w
            (λ u w' did.
              let (s', n') =
                State-Wrote p p' make q w w' numbered grow
                  (subst (Wrote view input (make q) w) did wrote) s in
              good w' s' n')
            (λ e w' did.
              bad e w'
                (State-kept view input w0 p w w' (subst (Wrote view input (make q) w) did wrote) s))
