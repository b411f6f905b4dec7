-- ===== src/Kernel/Traces/Requests.antt =====
-- The queries `trace.get` and `trace.list` of crates/core/seidrum-kernel/src/trace_collector/service.rs.
use seidrum.Base.{
  ℕ, ◌-◌, ◌^◌, if◌then◌else◌, leb, Text, codes, text_eq, Bool, true, false, Option, none, some,
  List, [], ◌∷◌, any, map, retain, take,
}
use seidrum.Base.Maps.{HashMap, get, values}
use seidrum.Index.Sort.{sort_by_key}
use seidrum.Kernel.Capabilities.{unwrap_or}
use seidrum.Kernel.Traces.{ℤ, TraceSpan, Trace}

pub record TraceGetRequest : Type 0 where
  pub correlation_id : Text
  pub auth_source : Option Text

pub record TraceListRequest : Type 0 where
  pub limit : Option ℕ
  pub since : Option ℕ
  pub auth_source : Option Text

pub record TraceSummary : Type 0 where
  pub correlation_id : Text
  pub started_at : ℕ
  pub duration_ms : ℤ
  pub span_count : ℕ
  pub trigger_subject : Text
  pub last_subject : Text

abbrev pub trusted_sources : List Text
trusted_sources =
    codes "api-gateway" ∷ codes "kernel" ∷ codes "seidrum-cli" ∷ codes "dashboard" ∷ []

abbrev pub is_authorized : Option Text → Bool
is_authorized none = false
is_authorized (some source) = any (λ s. text_eq s source) trusted_sources

-- A reply to `trace.get`: an error, or what there is.
pub data TraceGetReply : Type 0 where
  unauthorized : TraceGetReply
  found : Option Trace → TraceGetReply

abbrev pub trace_get : HashMap Trace → TraceGetRequest → TraceGetReply
trace_get traces req =
    if is_authorized req.auth_source then found (get traces req.correlation_id) else unauthorized

abbrev pub subject_of : Option TraceSpan → Text
subject_of none = []
subject_of (some s) = s.subject

abbrev pub first : List TraceSpan → Option TraceSpan
first [] = none
first (s ∷ ss) = some s

abbrev pub last : List TraceSpan → Option TraceSpan
last [] = none
last (s ∷ []) = some s
last (s ∷ t ∷ ss) = last (t ∷ ss)

abbrev pub summary_of : Trace → TraceSummary
summary_of t = record {
  correlation_id = t.correlation_id;
  started_at = t.started_at;
  duration_ms = t.duration_ms;
  span_count = t.span_count;
  trigger_subject = subject_of (first t.spans);
  last_subject = subject_of (last t.spans);
}

abbrev pub is_since : Option ℕ → Trace → Bool
is_since none t = true
is_since (some since) t = leb since t.started_at

-- A number that no time of chrono reaches, to count times back from, as `Reverse` orders them.
abbrev pub time_max : ℕ
time_max = 2 ^ 75

abbrev pub reverse_start : TraceSummary → ℕ
reverse_start s = time_max - s.started_at

unfoldable pub trace_list : HashMap Trace → TraceListRequest → List TraceSummary
unfolding sort_by_key
trace_list traces req =
    let summaries = map summary_of (retain (is_since req.since) (values traces)) in
    let listed = take (unwrap_or 50 req.limit) (sort_by_key reverse_start summaries) in
    if is_authorized req.auth_source then listed else []
