-- ===== src/Agent/Turn/Replay.antt =====
-- The replays of crates/core/seidrum-agent-runtime/src/lib.rs before and after a turn.
use seidrum.Agent.Turn.Trace.{
  RuntimeTrace, outbound_event, build_trace, first_agent, replay_session_trace, stored_result,
  IsNumbered, IsNumbered-append,
}
use seidrum.Agent.Turn.History.{run_turn-Ended}
use seidrum.Agent.Turn.{AgentRuntime, run_turn}
use seidrum.Base.{
  Text, text_eq, List, [], ◌∷◌, ◌++◌, ◌≡◌, refl, sym, ◌∙◌, ap, append-nil, append_assoc, filter_map,
  filter_map-append, Option, inl, inr, Bool-cases, text_eq→eq, subst,
}
use seidrum.Error.{Result, ok, err, ok_injective}
use seidrum.Agent.{RuntimeError, TurnInput, ToolResult, RuntimeEvent, outbound_response, TurnOutput}
use seidrum.Agent.Turns.{StoredTurnRecord, View, StoreLaws}
use seidrum.Agent.Turn.Progress.{
  Phase, untouched, thinking, in_call, answered, History, not_yet, begin, call, result, reply,
  Frame, Ended, IsStopped, State,
}

module _ {V : Type 0} (input : TurnInput) (before : List (StoredTurnRecord V)) where
  abbrev emitted : Phase V → List RuntimeEvent
  emitted (answered text results) = outbound_response input.session_id input.agent_id text ∷ []
  emitted _ = []

  stopped-emitted : (p : Phase V) → IsStopped p → emitted p ≡ []
  stopped-emitted untouched h = refl
  stopped-emitted (thinking results) h = refl
  stopped-emitted (in_call c results) h = refl
  stopped-emitted (answered text results) h = absurd h

  abbrev results_of : Phase V → List ToolResult
  results_of untouched = []
  results_of (thinking results) = results
  results_of (in_call c results) = results
  results_of (answered text results) = results

  grows :
      {B : Type 0} (f : StoredTurnRecord V → Option B) (xs : List (StoredTurnRecord V))
      (r : StoredTurnRecord V) (es : List B)
      → filter_map f xs ≡ filter_map f before ++ es
      → filter_map f (xs ++ r ∷ []) ≡ filter_map f before ++ (es ++ filter_map f (r ∷ []))
  grows f xs r es h =
      filter_map-append f xs (r ∷ []) ∙ rw h (append_assoc (filter_map f before) es _)

  emitted-History :
      {p : Phase V} {xs : List (StoredTurnRecord V)}
      → History input before p xs
      → filter_map outbound_event xs ≡ filter_map outbound_event before ++ emitted p
  emitted-History not_yet = sym (append-nil _)
  emitted-History (begin id) = filter_map-append outbound_event before _
  emitted-History (call {xs} c id h) = grows outbound_event xs _ [] (emitted-History h)
  emitted-History (result {xs} r id h) = grows outbound_event xs _ [] (emitted-History h)
  emitted-History (reply {xs} text id h) = grows outbound_event xs _ [] (emitted-History h)

  results_of-History :
      {p : Phase V} {xs : List (StoredTurnRecord V)}
      → History input before p xs
      → filter_map stored_result xs ≡ filter_map stored_result before ++ results_of p
  results_of-History not_yet = sym (append-nil _)
  results_of-History (begin id) = filter_map-append stored_result before _
  results_of-History (call {results} {xs} c id h) =
      grows stored_result xs _ results (results_of-History h)
      ∙ ap (λ rs. filter_map stored_result before ++ rs) (append-nil results)
  results_of-History (result {results} {xs} r id h) =
      grows stored_result xs _ results (results_of-History h)
  results_of-History (reply {results} {xs} text id h) =
      grows stored_result xs _ results (results_of-History h)
      ∙ ap (λ rs. filter_map stored_result before ++ rs) (append-nil results)

  History-IsNumbered :
      {p : Phase V} {xs : List (StoredTurnRecord V)}
      → History input before p xs
      → IsNumbered before
      → IsNumbered xs
  History-IsNumbered not_yet n = n
  History-IsNumbered (begin id) n = IsNumbered-append before _ refl n
  History-IsNumbered (call {xs} c id h) n = IsNumbered-append xs _ refl (History-IsNumbered h n)
  History-IsNumbered (result {xs} r id h) n = IsNumbered-append xs _ refl (History-IsNumbered h n)
  History-IsNumbered (reply {xs} text id h) n = IsNumbered-append xs _ refl (History-IsNumbered h n)

-- The events that a turn sends out.
abbrev pub sent_events : Result RuntimeError TurnOutput → List RuntimeEvent
sent_events (ok out) = out.events
sent_events (err e) = []

module _ {V W : Type 0} (rt : AgentRuntime V W) (view : View V W) (laws : StoreLaws rt.store view)
    (frame : Frame rt view) (input : TurnInput) where
  read_back :
      (s : Text) (w : W) (t : RuntimeTrace V)
      → replay_session_trace rt.store s w ≡ ok t
      → t ≡ build_trace s (first_agent (view w s)) (view w s)
  unfolding replay_session_trace
  read_back s w t h = elim (laws.records_view s w) [
    | inl read ↦ sym (ok_injective (rw read at h))
    | inr (e, failed) ↦ cc
  ]

  Ended-sent :
      (w : W) (o : Result RuntimeError TurnOutput × W)
      → Ended view input w o
      → filter_map outbound_event (view o.1 input.session_id)
        ≡ filter_map outbound_event (view w input.session_id) ++ sent_events o.0
  Ended-sent w (ok out, w') (text, results, is_output, (h, others)) =
      rw is_output (emitted-History input (view w input.session_id) h)
  Ended-sent w (err e, w') (p, stopped, (h, others)) =
      emitted-History input (view w input.session_id) h
      ∙ ap (λ es. filter_map outbound_event (view w input.session_id) ++ es)
          (stopped-emitted input (view w input.session_id) p stopped)

  -- If the replays of a session before and after a turn succeed, the second has the outbound
  -- events of the first, followed by those that the turn returned; a turn that fails adds none.
  pub run_turn-replay_session_trace :
      (w : W) (before after : RuntimeTrace V)
      → replay_session_trace rt.store input.session_id w ≡ ok before
      → replay_session_trace rt.store input.session_id (run_turn rt input w).1 ≡ ok after
      → after.outbound_events ≡ before.outbound_events ++ sent_events (run_turn rt input w).0
  run_turn-replay_session_trace w before after h h' =
      rw
        (
          read_back input.session_id w before h,
          read_back input.session_id (run_turn rt input w).1 after h',
        )
        (Ended-sent w (run_turn rt input w) (run_turn-Ended rt view laws frame input w))

  State-IsNumbered :
      (w w' : W) (p : Phase V)
      → State view input w p w'
      → (s : Text) → IsNumbered (view w s)
      → IsNumbered (view w' s)
  State-IsNumbered w w' p (h, others) s n = elim (Bool-cases (text_eq input.session_id s)) [
    | inl same ↦
        subst (λ j. IsNumbered (view w j) → IsNumbered (view w' j))
          (text_eq→eq input.session_id s same)
          (History-IsNumbered input (view w input.session_id) h) n
    | inr other ↦ subst IsNumbered (sym (others s other)) n
  ]

  Ended-IsNumbered :
      (w : W) (o : Result RuntimeError TurnOutput × W)
      → Ended view input w o
      → (s : Text) → IsNumbered (view w s)
      → IsNumbered (view o.1 s)
  Ended-IsNumbered w (ok out, w') (text, results, is_output, s) =
      State-IsNumbered w w' (answered text results) s
  Ended-IsNumbered w (err e, w') (p, stopped, s) = State-IsNumbered w w' p s

  -- If the records of a session are numbered by their places, so they are after a turn, of this
  -- session or another, however it ends.
  pub run_turn-IsNumbered :
      (w : W) (s : Text) → IsNumbered (view w s) → IsNumbered (view (run_turn rt input w).1 s)
  run_turn-IsNumbered w =
      Ended-IsNumbered w (run_turn rt input w) (run_turn-Ended rt view laws frame input w)

  -- What the output of a turn says of its tool results.
  abbrev pub HasResults : W → Result RuntimeError TurnOutput × W → Type 0
  HasResults w (ok out, w') =
      filter_map stored_result (view w' input.session_id)
      ≡ filter_map stored_result (view w input.session_id) ++ out.tool_results
  HasResults w (err e, w') = Unit

  Ended-HasResults :
      (w : W) (o : Result RuntimeError TurnOutput × W) → Ended view input w o → HasResults w o
  Ended-HasResults w (ok out, w') (text, results, is_output, (h, others)) =
      rw is_output (results_of-History input (view w input.session_id) h)
  Ended-HasResults w (err e, w') ended = tt

  -- The tool results that a turn returns are those that it stored, in their order.
  pub run_turn-HasResults : (w : W) → HasResults w (run_turn rt input w)
  run_turn-HasResults w =
      Ended-HasResults w (run_turn rt input w) (run_turn-Ended rt view laws frame input w)
