-- ===== src/Examples/AgentBench.antt =====
-- A world for the agent runtime: turns in memory, a provider that calls a tool until it answers, and
-- lists of runs, deliveries and audits.
use seidrum.Base.{
  ℕ, zero, suc, ◌≤◌, ◌<◌, if◌then◌else◌, Text, codes, text_eq, text_eq_refl, Bool, true, false,
  Option, none, some, List, [], ◌∷◌, ◌≡◌, refl, subst, find, arith, ◌⊎◌, inl, inr,
}
use seidrum.Error.{Result, ok}
use seidrum.Agent.{RuntimeError, ProviderRequest, ProviderResponse, TurnInput, default_config}
use seidrum.Agent.Action.{Action}
use seidrum.Agent.Turns.Memory.{InMemoryTurnStore, memory_turns, memory_view}
use seidrum.Agent.Turn.{AgentRuntime, ToolExecutor}
use seidrum.Agent.Turn.Progress.{Frame}
use seidrum.Agent.Turn.Rounds.{Calm}
use seidrum.Agent.Turn.Answers.{Reliable, Approaches}
use seidrum.Agent.Job.{JobDefinition, JobRunRecord, DurableJobStore}
use seidrum.Agent.Job.Outcome.{JobLaws}
use seidrum.Agent.Job.Ends.{JobsReliable}

-- JSON is left out of the examples.
abbrev pub Json : Type 0
Json = Unit {0}

pub record Bench : Type 0 where
  pub calls_left : ℕ
  pub asked : ℕ
  pub runs : List JobRunRecord

abbrev pub World : Type 0
World = InMemoryTurnStore Json × Bench

abbrev reply_at : ℕ → ProviderResponse Json
reply_at zero = record { final_text = some (codes "done"); tool_calls = [] }
reply_at (suc n) = record {
  final_text = none;
  tool_calls = record { id = codes "c"; name = codes "echo"; arguments = tt } ∷ [];
}

abbrev less : ℕ → ℕ
less zero = zero
less (suc n) = n

abbrev pub ask : ProviderRequest → Action World (ProviderResponse Json)
ask r w = (
  ok (reply_at w.1.calls_left),
  (w.0, record (w.1) { calls_left = less w.1.calls_left; asked = suc w.1.asked }),
)

abbrev pub echo : ToolExecutor Json World
echo call w = (
  ok (record { call_id = call.id; tool_name = call.name; content = codes "hi"; is_error = false }),
  w,
)

abbrev pub bench_runtime : AgentRuntime Json World
bench_runtime = record {
  complete = ask;
  store = memory_turns;
  tools = (codes "echo", echo) ∷ [];
  config = default_config;
  new_record_id = λ w. (codes "id", w);
}

only_echo :
    (name : Text) (t : ToolExecutor Json World) (b : Bool)
    → ◌≡◌ {A = Option (ToolExecutor Json World)} (if b then some echo else none) (some t)
    → echo ≡ t
only_echo name t true h = cc
only_echo name t false h = cc

pub bench_Frame : Frame bench_runtime memory_view
bench_Frame = record {
  complete_keeps = λ r w s. refl;
  tool_keeps = λ name t c h w s.
      subst (λ (e : ToolExecutor Json World). memory_view (e c w).1 s ≡ memory_view w s)
        (only_echo name t (text_eq (codes "echo") name) h) refl;
  id_keeps = λ w s. refl;
}

pub calm_by : (meter : Bench → ℕ) → Calm bench_runtime (λ w. meter w.1)
calm_by meter = record {
  id_calm = λ w. omega arith;
  append_calm = λ r w. omega arith;
  tool_calm = λ name t c w h.
      subst (λ (e : ToolExecutor Json World). meter (e c w).1.1 ≤ meter w.1)
        (only_echo name t (text_eq (codes "echo") name) h) (omega arith);
}

pub bench_Reliable : Reliable bench_runtime
bench_Reliable = record { append_ok = λ r w. refl; records_ok = λ s w. (memory_view w s, refl) }

approach :
    (n : ℕ)
    → (less n ≤ n) × (((text : Text) × ((reply_at n).final_text ≡ some text)) ⊎ (less n < n))
approach zero = (omega arith, inl (codes "done", refl))
approach (suc n) = (omega arith, inr (omega arith))

pub bench_Approaches : Approaches bench_runtime (λ w. w.1.calls_left)
bench_Approaches r w =
    let (lower, goes) = approach w.1.calls_left in (reply_at w.1.calls_left, refl, lower, goes)

-- One job, `daily`.
abbrev pub daily : JobDefinition Json
daily = record {
  job_id = codes "daily";
  agent_id = codes "agent";
  session_id = none;
  prompt = codes "report";
  schedule_spec = none;
  enabled = true;
  metadata = tt;
}

abbrev pub weekly : JobDefinition Json
weekly = record daily { job_id = codes "weekly"; enabled = false }

abbrev pub bench_jobs : DurableJobStore Json World
bench_jobs = record {
  put_job_definition = λ d w. (ok tt, w);
  job_definition = λ id w. ok (find (λ d. text_eq d.job_id id) (daily ∷ weekly ∷ []));
  list_job_definitions = λ w. ok (daily ∷ weekly ∷ []);
  put_job_run = λ r w. (ok tt, (w.0, record (w.1) { runs = r ∷ w.1.runs }));
  job_run = λ id w. ok (find (λ r. text_eq r.run_id id) w.1.runs);
  list_job_runs = λ id w. ok w.1.runs;
}

abbrev pub bench_runs : World → Text → Option JobRunRecord
bench_runs w id = find (λ r. text_eq r.run_id id) w.1.runs

pub bench_JobLaws : JobLaws bench_jobs memory_view bench_runs
bench_JobLaws = record {
  put_keeps = λ r w s. refl;
  put_runs = λ r w w' did.
      subst (λ (o : Result RuntimeError (Unit {0}) × World). bench_runs o.1 r.run_id ≡ some r) did
        (rw (text_eq_refl r.run_id) refl);
}

pub bench_JobsReliable : JobsReliable bench_runtime bench_jobs
bench_JobsReliable = record { put_ok = λ r w. refl; records_ok = λ s w. (memory_view w s, refl) }

abbrev pub bench : World
bench = ([], record { calls_left = 2; asked = 0; runs = [] })

abbrev pub hello : TurnInput
hello = record { session_id = codes "s"; agent_id = codes "a"; user_message = codes "hello" }
