-- ===== src/Agent/Job/Outcome.antt =====
-- What a forced run of crates/core/seidrum-agent-runtime/src/lib.rs says, and what the job store owes it.
use seidrum.Base.{◌%◌, Text, Option, some, length, ◌≡◌, true, List, ◌⊎◌, none}
use seidrum.Error.{Result, ok, err}
use seidrum.Store.{u64_mod}
use seidrum.Agent.{RuntimeError, ToolResult}
use seidrum.Agent.Turns.{sequence_after, View, Keeps}
use seidrum.Agent.Turn.Progress.{Phase, answered, IsStopped, History}
use seidrum.Agent.Job.{
  JobDefinition, JobRunRecord, DurableJobStore, succeeded, failed, job_session, job_input,
}

module _ {V W : Type 0} where
  -- `runs w id` is the run under `id`. A run that is put leaves the turn records alone.
  pub record JobLaws (jobs : DurableJobStore V W) (view : View V W)
      (runs : W → Text → Option JobRunRecord) : Type 0 where
    pub put_keeps : (r : JobRunRecord) → Keeps view (jobs.put_job_run r)
    pub put_runs :
        (r : JobRunRecord) (w w' : W)
        → jobs.put_job_run r w ≡ (ok tt, w')
        → runs w' r.run_id ≡ some r

module _ {V W : Type 0} (view : View V W) (runs : W → Text → Option JobRunRecord)
    (definition : JobDefinition V) (w : W) where
  -- The run says how its turn ended, and the session holds that turn.
  abbrev pub Outcome : JobRunRecord → W → Type 0
  Outcome run w' =
      let input = job_input definition run.session_id in
      let before = view w run.session_id in
      let after = view w' run.session_id in
      ((text : Text) × (results : List ToolResult) × (run.status ≡ succeeded)
        × (run.final_text ≡ some text)
        × History input before (answered text results) after)
      ⊎ ((p : Phase V) × IsStopped p
          × (run.status ≡ failed)
          × (run.final_text ≡ none)
          × History input before p after)

  pub record RunStored (run : JobRunRecord) (w' : W) : Type 0 where
    pub stored : runs w' run.run_id ≡ some run
    pub of_job : run.job_id ≡ definition.job_id
    pub in_session : run.session_id ≡ job_session definition.session_id definition.job_id run.run_id
    pub started : run.started_sequence ≡ sequence_after (length (view w run.session_id))
    pub ended : run.completed_sequence ≡ some (length (view w' run.session_id) % u64_mod)
    pub outcome : Outcome run w'

module _ {V W : Type 0} (jobs : DurableJobStore V W) (view : View V W)
    (runs : W → Text → Option JobRunRecord) (job_id : Text) (w : W) where
  -- What a run that is returned says of the job and of the store.
  abbrev pub JobEnded : Result RuntimeError JobRunRecord × W → Type 0
  JobEnded (ok run, w') =
      (definition : JobDefinition V) × (jobs.job_definition job_id w ≡ ok (some definition))
      × (definition.enabled ≡ true)
      × RunStored view runs definition w run w'
  JobEnded (err e, w') = Unit
