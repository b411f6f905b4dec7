-- ===== src/Agent/Job/Runs.antt =====
-- What `force_run_job` of crates/core/seidrum-agent-runtime/src/lib.rs leaves in the store.
use seidrum.Agent.Job.Steps.{Started, start_run-Started, Finished, finish_run-Finished}
use seidrum.Agent.Job.Outcome.{JobLaws, Outcome, RunStored, JobEnded}
use seidrum.Agent.Turn.History.{run_turn-Ended}
use mathlib.Core.Path.{subst₂}
use seidrum.Base.{
  ℕ, ◌%◌, Text, Option, some, length, ◌≡◌, refl, subst, ◌∙◌, inl, inr, true, sym, ap, none,
  if◌then◌else◌, Bool, false,
}
use seidrum.Error.{Result, ok, err}
use seidrum.Store.{u64_mod}
use seidrum.Agent.{RuntimeError, TurnOutput}
use seidrum.Agent.Action.{bind-rule, ◌>>=◌, reading-rule, fail}
use seidrum.Agent.Turns.{sequence_after, StoreLaws, View}
use seidrum.Agent.Turn.{AgentRuntime, run_turn}
use seidrum.Agent.Turn.Progress.{Frame, answered, History, Ended}
use seidrum.Agent.Job.{
  JobDefinition, running, JobRunRecord, DurableJobStore, completed, new_run, finish_run, start_run,
  job_session, job_input, run_job, attempt, force_run_job, undefined_job, disabled_job, ok_or,
}

module _ {V W : Type 0} (rt : AgentRuntime V W) (jobs : DurableJobStore V W) (view : View V W)
    (runs : W → Text → Option JobRunRecord) (laws : StoreLaws rt.store view) (frame : Frame rt view)
    (job_laws : JobLaws jobs view runs) where
  module _ (definition : JobDefinition V) (w : W) where
    AllStored : Result RuntimeError JobRunRecord × W → Type 0
    AllStored (ok run, w') = RunStored view runs definition w run w'
    AllStored (err e, w') = Unit

    -- The run that a turn from `w2` ends with, in the world `w3` after the turn.
    run_outcome :
        (session run_id : Text) (w2 w3 w' : W) (result : Result RuntimeError TurnOutput)
        (start completed_at : ℕ)
        → ((s : Text) → view w2 s ≡ view w s)
        → ((s : Text) → view w' s ≡ view w3 s)
        → Ended view (job_input definition session) w2 (result, w3)
        → Outcome view runs definition w
            (completed
              (record (new_run run_id definition session start) {
                status = running;
                completed_sequence = some completed_at;
              })
              result)
            w'
    run_outcome session run_id w2 w3 w' (ok out) start completed_at before after
          (text, results, is, (h, others)) =
        inl (
          text,
          results,
          refl,
          ap (λ o. some o.final_text) is,
          subst₂ (λ x y. History (job_input definition session) x (answered text results) y)
              (before session) (sym (after session)) h,
        )
    run_outcome session run_id w2 w3 w' (err e) start completed_at before after
          (p, stopped, (h, others)) =
        inr (
          p,
          stopped,
          refl,
          refl,
          subst₂ (λ x y. History (job_input definition session) x p y) (before session)
              (sym (after session)) h,
        )

    module _ (run_id : Text) (w2 w3 : W) (before : (s : Text) → view w2 s ≡ view w s) where
      abbrev session : Text
      session = job_session definition.session_id definition.job_id run_id

      abbrev started_run : JobRunRecord
      started_run =
          record (new_run run_id definition session (sequence_after (length (view w session)))) {
            status = running;
          }

      abbrev completed_run : Result RuntimeError TurnOutput → JobRunRecord
      completed_run result =
          completed
            (record started_run { completed_sequence = some (length (view w3 session) % u64_mod) })
            result

      run_stored :
          (result : Result RuntimeError TurnOutput) (w' : W)
          → Ended view (job_input definition session) w2 (result, w3)
          → ((s : Text) → view w' s ≡ view w3 s)
          → runs w' (completed_run result).run_id ≡ some (completed_run result)
          → RunStored view runs definition w (completed_run result) w'
      run_stored (ok out) w' ended after stored = record {
        stored = stored;
        of_job = refl;
        in_session = refl;
        started = refl;
        ended = ap (λ rs. some (length rs % u64_mod)) (sym (after session));
        outcome =
            run_outcome session run_id w2 w3 w' (ok out) (sequence_after (length (view w session)))
              (length (view w3 session) % u64_mod) before after ended;
      }
      run_stored (err e) w' ended after stored = record {
        stored = stored;
        of_job = refl;
        in_session = refl;
        started = refl;
        ended = ap (λ rs. some (length rs % u64_mod)) (sym (after session));
        outcome =
            run_outcome session run_id w2 w3 w' (err e) (sequence_after (length (view w session)))
              (length (view w3 session) % u64_mod) before after ended;
      }

      Finished-AllStored :
          (result : Result RuntimeError TurnOutput) (o : Result RuntimeError JobRunRecord × W)
          → Ended view (job_input definition session) w2 (result, w3)
          → Finished rt jobs view runs laws frame job_laws started_run result w3 o
          → AllStored o
      unfolding Finished AllStored
      Finished-AllStored result (ok done, w') ended (is, stored, after) =
          subst (λ d. runs w' d.run_id ≡ some d → RunStored view runs definition w d w') (sym is)
            (run_stored result w' ended after) stored
      Finished-AllStored result (err e, w') ended finished = tt

    run_job-AllStored : AllStored (run_job rt jobs definition w)
    unfolding run_job AllStored Started
    run_job-AllStored =
        let (run_id, w1) = rt.new_record_id w in
        let at = session run_id w w (λ s. refl) in
        let same1 = frame.id_keeps w in
        bind-rule AllStored (start_run rt jobs definition run_id at) _ w1
          (λ run w2 did.
            let (is, same2) =
              subst (Started rt jobs view runs laws frame job_laws definition run_id at w1) did
                (start_run-Started rt jobs view runs laws frame job_laws definition run_id at w1) in
            let is' =
              is
              ∙ ap
                  (λ n. record (new_run run_id definition at (sequence_after n)) {
                    status = running;
                  })
                  (ap length (same1 at)) in
            let same = λ (s : Text). same2 s ∙ same1 s in
            subst
              (λ r. AllStored (
                (attempt (run_turn rt (job_input definition r.session_id)) >>= finish_run rt jobs r)
                  w2))
              (sym is')
              (let (result, w3) = run_turn rt (job_input definition at) w2 in
                let from = started_run run_id w2 w3 same in
                Finished-AllStored run_id w2 w3 same result (finish_run rt jobs from result w3)
                  (run_turn-Ended rt view laws frame (job_input definition at) w2)
                  (finish_run-Finished rt jobs view runs laws frame job_laws from result w3)))
          (λ e w2 did. tt)

  stored_JobEnded :
      (job_id : Text) (w : W) (definition : JobDefinition V)
      → jobs.job_definition job_id w ≡ ok (some definition)
      → definition.enabled ≡ true
      → (o : Result RuntimeError JobRunRecord × W) → AllStored definition w o
      → JobEnded jobs view runs job_id w o
  unfolding AllStored
  stored_JobEnded job_id w definition h enabled (ok run, w') stored =
      (definition, h, enabled, stored)
  stored_JobEnded job_id w definition h enabled (err e, w') stored = tt

  enabled_JobEnded :
      (job_id : Text) (w : W) (definition : JobDefinition V)
      → jobs.job_definition job_id w ≡ ok (some definition)
      → (enabled : Bool) → definition.enabled ≡ enabled
      → JobEnded jobs view runs job_id w
          ((if enabled then run_job rt jobs definition else fail (disabled_job job_id)) w)
  enabled_JobEnded job_id w definition h true enabled =
      stored_JobEnded job_id w definition h enabled (run_job rt jobs definition w)
        (run_job-AllStored definition w)
  enabled_JobEnded job_id w definition h false enabled = tt

  found_JobEnded :
      (job_id : Text) (w : W) (found : Option (JobDefinition V))
      → jobs.job_definition job_id w ≡ ok found
      → JobEnded jobs view runs job_id w (
          (ok_or found (undefined_job job_id) >>= λ definition.
          if definition.enabled then run_job rt jobs definition else fail (disabled_job job_id))
            w)
  found_JobEnded job_id w none h = tt
  found_JobEnded job_id w (some definition) h =
      enabled_JobEnded job_id w definition h definition.enabled refl

  -- Over a store whose calls work whole or fail without effect, if `force_run_job` returns a run,
  -- then the job is defined and enabled, the run is stored under its id, belongs to the job and to
  -- its session, spans the numbers of its turn, and is `Succeeded` with the answer at the end of
  -- the session's history, or `Failed` without a text, when the history has no answer.
  pub force_run_job-JobEnded :
      (job_id : Text) (w : W) → JobEnded jobs view runs job_id w (force_run_job rt jobs job_id w)
  unfolding force_run_job
  force_run_job-JobEnded job_id w =
      reading-rule (JobEnded jobs view runs job_id w) (jobs.job_definition job_id) _ w
        (λ found h. found_JobEnded job_id w found h) (λ e h. tt)
