-- ===== src/Agent/Job.antt =====
-- The jobs of crates/core/seidrum-agent-runtime/src/lib.rs: `DurableJobStore`, `ForceRunJobExecutor` and
-- `replay_job_run`.
pub mod Outcome
mod Steps
pub mod Runs
pub mod Ends
use seidrum.Base.{
  ℕ, ◌%◌, if◌then◌else◌, Text, codes, Bool, true, false, not, Option, none, some, List, [], ◌∷◌,
  ◌++◌, length,
}
use seidrum.Error.{Result, ok, err}
use seidrum.Store.{u64_mod}
use seidrum.Agent.{RuntimeError, store, to_string, TurnInput, TurnOutput}
use seidrum.Agent.Action.{Action, return, fail, reading, calling, ◌>>=◌, ◌>>◌}
use seidrum.Agent.Turns.{sequence_after, RuntimeStore}
use seidrum.Agent.Turn.{AgentRuntime, run_turn}
use seidrum.Agent.Turn.Trace.{RuntimeTrace, replay_session_trace}

pub record JobDefinition (V : Type 0) : Type 0 where
  pub job_id : Text
  pub agent_id : Text
  pub session_id : Option Text
  pub prompt : Text
  pub schedule_spec : Option Text
  pub enabled : Bool
  pub metadata : V

pub data JobRunStatus : Type 0 where
  queued running succeeded failed cancelled : JobRunStatus

pub record JobRunRecord : Type 0 where
  pub run_id : Text
  pub job_id : Text
  pub session_id : Text
  pub status : JobRunStatus
  pub started_sequence : ℕ
  pub completed_sequence : Option ℕ
  pub output_summary : Option Text
  pub final_text : Option Text
  pub error : Option Text
  pub trace_session_id : Text

pub record JobRunReplay (V : Type 0) : Type 0 where
  pub run : JobRunRecord
  pub trace : RuntimeTrace V

-- The jobs' part of `DurableJobStore`.
pub record DurableJobStore (V W : Type 0) : Type 0 where
  pub put_job_definition : JobDefinition V → Action W (Unit {0})
  pub job_definition : Text → W → Result RuntimeError (Option (JobDefinition V))
  pub list_job_definitions : W → Result RuntimeError (List (JobDefinition V))
  pub put_job_run : JobRunRecord → Action W (Unit {0})
  pub job_run : Text → W → Result RuntimeError (Option JobRunRecord)
  pub list_job_runs : Text → W → Result RuntimeError (List JobRunRecord)

-- `definition.session_id.unwrap_or_else(..)`.
abbrev pub job_session : Option Text → Text → Text → Text
job_session none job run = codes "job:" ++ job ++ codes ":run:" ++ run
job_session (some session) job run = session

abbrev pub completed : JobRunRecord → Result RuntimeError TurnOutput → JobRunRecord
completed run (ok out) = record run {
  status = succeeded;
  output_summary = some out.final_text;
  final_text = some out.final_text;
  error = none;
}
completed run (err e) = record run {
  status = failed;
  output_summary = none;
  final_text = none;
  error = some (to_string e);
}

-- A result that is kept instead of passed on.
abbrev pub attempt : {W A : Type 0} → Action W A → Action W (Result RuntimeError A)
attempt m w = let (r, w') = m w in (ok r, w')

module _ {V : Type 0} where
  abbrev pub new_run : Text → JobDefinition V → Text → ℕ → JobRunRecord
  new_run run_id definition session started = record {
    run_id = run_id;
    job_id = definition.job_id;
    session_id = session;
    status = queued;
    started_sequence = started;
    completed_sequence = none;
    output_summary = none;
    final_text = none;
    error = none;
    trace_session_id = session;
  }

  abbrev pub job_input : JobDefinition V → Text → TurnInput
  job_input definition session = record {
    session_id = session;
    agent_id = definition.agent_id;
    user_message = definition.prompt;
  }

-- What is said of a name that has no definition, no run or no leave to run.
abbrev pub undefined_job : Text → RuntimeError
undefined_job id = store (codes "job `" ++ id ++ codes "` is not defined")

abbrev pub disabled_job : Text → RuntimeError
disabled_job id = store (codes "job `" ++ id ++ codes "` is disabled")

abbrev pub undefined_run : Text → RuntimeError
undefined_run id = store (codes "job run `" ++ id ++ codes "` is not defined")

-- `Option::ok_or_else`.
abbrev pub ok_or : {W A : Type 0} → Option A → RuntimeError → Action W A
ok_or none e = fail e
ok_or (some a) e = return a

module _ {V W : Type 0} (rt : AgentRuntime V W) (jobs : DurableJobStore V W) where
  -- `run`, and what is left to do with it.
  unfoldable pub finish_run : JobRunRecord → Result RuntimeError TurnOutput → Action W JobRunRecord
  finish_run run result = do
    rs ← reading (rt.store.records run.session_id)
    let done = completed (record run { completed_sequence = some (length rs % u64_mod) }) result
    jobs.put_job_run done
    return done

  unfoldable pub start_run : JobDefinition V → Text → Text → Action W JobRunRecord
  start_run definition run_id session = do
    rs ← reading (rt.store.records session)
    let run = new_run run_id definition session (sequence_after (length rs))
    jobs.put_job_run run
    jobs.put_job_run (record run { status = running })
    return (record run { status = running })

  unfoldable pub run_job : JobDefinition V → Action W JobRunRecord
  run_job definition = do
    run_id ← calling rt.new_record_id
    run ← start_run definition run_id (job_session definition.session_id definition.job_id run_id)
    result ← attempt (run_turn rt (job_input definition run.session_id))
    finish_run run result

  unfoldable pub force_run_job : Text → Action W JobRunRecord
  force_run_job job_id = do
    found ← reading (jobs.job_definition job_id)
    definition ← ok_or found (undefined_job job_id)
    if definition.enabled then run_job definition else fail (disabled_job job_id)

  unfoldable pub replay_job_run : Text → Action W (JobRunReplay V)
  replay_job_run run_id = do
    found ← reading (jobs.job_run run_id)
    run ← ok_or found (undefined_run run_id)
    trace ← reading (replay_session_trace rt.store run.trace_session_id)
    return (record { run = run; trace = trace })
