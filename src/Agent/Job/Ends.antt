-- ===== src/Agent/Job/Ends.antt =====
-- Which calls of `force_run_job` of crates/core/seidrum-agent-runtime/src/lib.rs end with a run.
use seidrum.Base.{
  Text, Bool, true, false, if◌then◌else◌, none, some, List, ◌≡◌, refl, ◌⊎◌, inl, inr, length, ◌%◌,
}
use seidrum.Error.{Result, ok, err}
use seidrum.Agent.{RuntimeError, TurnOutput}
use seidrum.Agent.Action.{ok_rule, reading, fail}
use seidrum.Agent.Turns.{StoredTurnRecord, sequence_after}
use seidrum.Agent.Turn.{AgentRuntime, run_turn}
use seidrum.Store.{u64_mod}
use seidrum.Agent.Job.{
  JobDefinition, running, JobRunRecord, DurableJobStore, job_session, completed, new_run, job_input,
  finish_run, start_run, run_job, force_run_job, undefined_job, disabled_job,
}

module _ {V W : Type 0} (rt : AgentRuntime V W) (jobs : DurableJobStore V W) where
  -- The job cannot be run: it cannot be read, is not defined, or is disabled.
  abbrev pub Unrunnable : Text → W → Type 0
  Unrunnable job_id w =
      ((e : RuntimeError) × (jobs.job_definition job_id w ≡ err e))
      ⊎ ((jobs.job_definition job_id w ≡ ok none)
          ⊎ ((d : JobDefinition V) × (jobs.job_definition job_id w ≡ ok (some d))
              × (d.enabled ≡ false)))

  refuse :
      (job_id : Text) (w : W) (d : JobDefinition V) (enabled : Bool)
      → enabled ≡ false
      → (if enabled then run_job rt jobs d else fail (disabled_job job_id)) w
        ≡ (err (disabled_job job_id), w)
  refuse job_id w d true h = cc
  refuse job_id w d false h = refl

  pub force_run_job_refuses :
      (job_id : Text) (w : W)
      → Unrunnable job_id w
      → (e : RuntimeError) × (force_run_job rt jobs job_id w ≡ (err e, w))
  unfolding force_run_job
  force_run_job_refuses job_id w (inl (e, h)) = (e, rw h refl)
  force_run_job_refuses job_id w (inr (inl h)) = (undefined_job job_id, rw h refl)
  force_run_job_refuses job_id w (inr (inr (d, h, disabled))) =
      (disabled_job job_id, rw h (refuse job_id w d d.enabled disabled))

  -- The store takes every run and gives every session.
  pub record JobsReliable : Type 0 where
    pub put_ok : (r : JobRunRecord) (w : W) → (jobs.put_job_run r w).0 ≡ ok tt
    pub records_ok :
        (s : Text) (w : W) → (rs : List (StoredTurnRecord V)) × (rt.store.records s w ≡ ok rs)

  module _ (reliable : JobsReliable) where
    start_run_ends :
        (d : JobDefinition V) (run_id session : Text) (w : W)
        → (run : JobRunRecord) × ((start_run rt jobs d run_id session w).0 ≡ ok run)
    unfolding start_run
    start_run_ends d run_id session w =
        let (rs, read) = reliable.records_ok session w in
        let run = new_run run_id d session (sequence_after (length rs)) in
        ok_rule (reading (rt.store.records session)) rs _ w read (λ w1.
          ok_rule (jobs.put_job_run run) tt _ w1 (reliable.put_ok run w1) (λ w2.
            ok_rule (jobs.put_job_run (record run { status = running })) tt _ w2
              (reliable.put_ok (record run { status = running }) w2) (λ w3. (_, refl))))

    finish_run_ends :
        (run : JobRunRecord) (result : Result RuntimeError TurnOutput) (w : W)
        → (done : JobRunRecord) × ((finish_run rt jobs run result w).0 ≡ ok done)
    unfolding finish_run
    finish_run_ends run result w =
        let (rs, read) = reliable.records_ok run.session_id w in
        let done =
          completed (record run { completed_sequence = some (length rs % u64_mod) }) result in
        ok_rule (reading (rt.store.records run.session_id)) rs _ w read (λ w1.
          ok_rule (jobs.put_job_run done) tt _ w1 (reliable.put_ok done w1) (λ w2. (_, refl)))

    run_job_ends :
        (d : JobDefinition V) (w : W) → (run : JobRunRecord) × ((run_job rt jobs d w).0 ≡ ok run)
    unfolding run_job
    run_job_ends d w =
        let (run_id, w1) = rt.new_record_id w in
        let at = job_session d.session_id d.job_id run_id in
        let (run, started) = start_run_ends d run_id at w1 in
        ok_rule (start_run rt jobs d run_id at) run _ w1 started (λ w2.
          let (result, w3) = run_turn rt (job_input d run.session_id) w2 in
          finish_run_ends run result w3)

    permit :
        (job_id : Text) (w : W) (d : JobDefinition V) (enabled : Bool)
        → enabled ≡ true
        → (run : JobRunRecord) × (((if enabled
                then run_job rt jobs d
                else fail (disabled_job job_id))
              w).0
            ≡ ok run)
    permit job_id w d true h = run_job_ends d w
    permit job_id w d false h = cc

    -- If the store takes every run and gives every session, a forced run of a job that is defined
    -- and enabled returns a run, also when its turn fails.
    pub force_run_job_ends :
        (job_id : Text) (w : W) (d : JobDefinition V)
        → jobs.job_definition job_id w ≡ ok (some d)
        → d.enabled ≡ true
        → (run : JobRunRecord) × ((force_run_job rt jobs job_id w).0 ≡ ok run)
    unfolding force_run_job
    force_run_job_ends job_id w d found enabled = rw found (permit job_id w d d.enabled enabled)
