-- ===== src/Examples/AgentRuns.antt =====
-- The agent runtime at concrete inputs.
use seidrum.Base.{◌+◌, ◌≤◌, codes, text_eq, [], ◌++◌, ◌≡◌, refl, arith, length}
use seidrum.Error.{ok}
use seidrum.Agent.{TurnOutput}
use seidrum.Agent.Turns.Memory.{memory_view, memory_turns-StoreLaws, get_records, push_record}
use seidrum.Agent.Turn.{run_turn, next_sequence, append_new, run_rounds, run_calls, execute_tool}
use seidrum.Agent.Turn.Progress.{Ended}
use seidrum.Agent.Turn.History.{run_turn-Ended}
use seidrum.Agent.Turn.Trace.{RuntimeTrace, build_trace, replay_session_trace, IsNumbered}
use seidrum.Agent.Turn.Replay.{sent_events, run_turn-replay_session_trace, run_turn-IsNumbered}
use seidrum.Agent.Turn.Rounds.{run_turn_within}
use seidrum.Agent.Turn.Answers.{run_turn_answers}
use seidrum.Agent.Job.{JobRunRecord, force_run_job}
use seidrum.Agent.Job.Runs.{force_run_job-JobEnded}
use seidrum.Agent.Job.Outcome.{JobEnded}
use seidrum.Agent.Job.Ends.{force_run_job_ends}
use seidrum.Examples.AgentBench.{
  Json, World, bench_runtime, bench_Frame, calm_by, bench_Reliable, bench_Approaches, bench_jobs,
  bench_runs, bench_JobLaws, bench_JobsReliable, bench, hello, daily,
}

run_turn-Ended_example : Ended memory_view hello bench (run_turn bench_runtime hello bench)
run_turn-Ended_example =
    run_turn-Ended bench_runtime memory_view memory_turns-StoreLaws bench_Frame hello bench

abbrev after : World
after = (run_turn bench_runtime hello bench).1

abbrev empty_trace : RuntimeTrace Json
empty_trace = build_trace (codes "s") [] []

abbrev full_trace : RuntimeTrace Json
full_trace = build_trace (codes "s") (codes "a") (memory_view after (codes "s"))

run_turn-replay_session_trace_example :
    full_trace.outbound_events
    ≡ empty_trace.outbound_events ++ sent_events (run_turn bench_runtime hello bench).0
unfolding run_turn replay_session_trace get_records next_sequence append_new run_rounds run_calls
    execute_tool text_eq push_record
run_turn-replay_session_trace_example =
    run_turn-replay_session_trace bench_runtime memory_view memory_turns-StoreLaws bench_Frame hello
      bench empty_trace full_trace refl refl

run_turn-IsNumbered_example : IsNumbered (memory_view after (codes "s"))
unfolding get_records
run_turn-IsNumbered_example =
    run_turn-IsNumbered bench_runtime memory_view memory_turns-StoreLaws bench_Frame hello bench
      (codes "s") tt

run_turn_within_example : after.1.asked ≤ 0 + 4
run_turn_within_example =
    run_turn_within bench_runtime (λ w. w.1.asked) (calm_by (λ b. b.asked)) hello
      (λ r w. omega arith) bench

run_turn_answers_example : (out : TurnOutput) × ((run_turn bench_runtime hello bench).0 ≡ ok out)
run_turn_answers_example =
    run_turn_answers bench_runtime (λ w. w.1.calls_left) (calm_by (λ b. b.calls_left))
      bench_Reliable bench_Approaches hello bench (omega arith)

force_run_job-JobEnded_example :
    JobEnded bench_jobs memory_view bench_runs
      (codes "daily")
      bench
      (force_run_job bench_runtime bench_jobs (codes "daily") bench)
force_run_job-JobEnded_example =
    force_run_job-JobEnded bench_runtime bench_jobs memory_view bench_runs memory_turns-StoreLaws
      bench_Frame bench_JobLaws (codes "daily") bench

force_run_job_ends_example :
    (run : JobRunRecord) × ((force_run_job bench_runtime bench_jobs (codes "daily") bench).0
      ≡ ok run)
unfolding text_eq
force_run_job_ends_example =
    force_run_job_ends bench_runtime bench_jobs bench_JobsReliable (codes "daily") bench daily refl
      refl

-- The turn of the bench: two rounds with a call each, then the answer.
turn_test : (length (memory_view after (codes "s")) ≡ 6) × (after.1.asked ≡ 3)
unfolding run_turn get_records next_sequence append_new run_rounds run_calls execute_tool text_eq
    push_record
turn_test = (refl, refl)
