-- ===== src/Agent/Job/Steps.antt =====
-- The start and the end of a forced run of crates/core/seidrum-agent-runtime/src/lib.rs.
use seidrum.Agent.Job.Outcome.{JobLaws}
use seidrum.Base.{◌%◌, Text, Option, some, length, ◌≡◌, refl, subst, ◌∙◌, inl, inr}
use seidrum.Error.{Result, ok, err}
use seidrum.Store.{u64_mod}
use seidrum.Agent.{RuntimeError, TurnOutput}
use seidrum.Agent.Action.{bind-rule}
use seidrum.Agent.Turns.{sequence_after, StoreLaws, View}
use seidrum.Agent.Turn.{AgentRuntime}
use seidrum.Agent.Turn.Progress.{Frame}
use seidrum.Agent.Job.{
  JobDefinition, running, JobRunRecord, DurableJobStore, completed, new_run, finish_run, start_run,
}

module _ {V W : Type 0} (rt : AgentRuntime V W) (jobs : DurableJobStore V W) (view : View V W)
    (runs : W → Text → Option JobRunRecord) (laws : StoreLaws rt.store view) (frame : Frame rt view)
    (job_laws : JobLaws jobs view runs) where
  -- How a run that was started looks.
  unfoldable pub Started :
      JobDefinition V → Text → Text → W → Result RuntimeError JobRunRecord × W → Type 0
  Started definition run_id session w (ok run, w') =
      (run ≡ record (new_run run_id definition session (sequence_after (length (view w session)))) {
        status = running;
      })
      × ((s : Text) → view w' s ≡ view w s)
  Started definition run_id session w (err e, w') = Unit

  put_kept :
      (r : JobRunRecord) (w w' : W)
      → jobs.put_job_run r w ≡ (ok tt, w')
      → (s : Text) → view w' s ≡ view w s
  put_kept r w w' did s =
      subst (λ (o : Result RuntimeError (Unit {0}) × W). view o.1 s ≡ view w s) did
        (job_laws.put_keeps r w s)

  pub start_run-Started :
      (definition : JobDefinition V) (run_id session : Text) (w : W)
      → Started definition run_id session w (start_run rt jobs definition run_id session w)
  unfolding start_run Started
  start_run-Started definition run_id session w = elim (laws.records_view session w) [
    | inr (e, missed) ↦ rw missed tt
    | inl read ↦ rw read (
        let run = new_run run_id definition session (sequence_after (length (view w session))) in
        bind-rule (Started definition run_id session w) (jobs.put_job_run run) _ w
          (λ u w1 did1.
            bind-rule (Started definition run_id session w)
              (jobs.put_job_run (record run { status = running })) _ w1
              (λ u' w2 did2. (
                refl,
                λ s.
                    put_kept (record run { status = running }) w1 w2 did2 s
                    ∙ put_kept run w w1 did1 s,
              ))
              (λ e w2 did2. tt))
          (λ e w1 did1. tt))
  ]

  unfoldable pub Finished :
      JobRunRecord
      → Result RuntimeError TurnOutput
      → W
      → Result RuntimeError JobRunRecord × W
      → Type 0
  Finished run result w (ok done, w') =
      (done
        ≡ completed
            (record run { completed_sequence = some (length (view w run.session_id) % u64_mod) })
            result)
      × (runs w' done.run_id ≡ some done)
      × ((s : Text) → view w' s ≡ view w s)
  Finished run result w (err e, w') = Unit

  pub finish_run-Finished :
      (run : JobRunRecord) (result : Result RuntimeError TurnOutput) (w : W)
      → Finished run result w (finish_run rt jobs run result w)
  unfolding finish_run Finished
  finish_run-Finished run result w = elim (laws.records_view run.session_id w) [
    | inr (e, missed) ↦ rw missed tt
    | inl read ↦ rw read (
        let done =
          completed
            (record run { completed_sequence = some (length (view w run.session_id) % u64_mod) })
            result in
        bind-rule (Finished run result w) (jobs.put_job_run done) _ w
          (λ u w' did. (refl, job_laws.put_runs done w w' did, put_kept done w w' did))
          (λ e w' did. tt))
  ]
