-- ===== src/Kernel/Traces.antt =====
-- The collector of traces, crates/core/seidrum-kernel/src/trace_collector/service.rs. Times are in
-- nanoseconds from the earliest that chrono has. JSON values and the parsing of times are parameters; `none`
-- is the panic of the task that collects.
pub mod Bounds
pub mod Requests
pub mod Lists
use seidrum.Base.{
  ℕ, suc, ◌+◌, ◌-◌, ◌*◌, ◌/◌, ◌^◌, if◌then◌else◌, leb, ltb, Text, codes, starts_with, text_eq, Bool,
  true, false, ◌||◌, Option, none, some, List, [], ◌∷◌, ◌++◌, any, find, map, retain, take, length,
  zero,
}
use seidrum.Base.Maps.{HashMap, get, insert, remove, values}
use seidrum.Index.Sort.{sort_by_key}
use seidrum.Kernel.Capabilities.{Documents, unwrap_or}
use seidrum.Store.{next_u64}
use seidrum.Telegram.{split_at}

-- A duration in whole milliseconds; `negsuc n` is -(n + 1).
pub data ℤ : Type 0 where
  pos negsuc : ℕ → ℤ

abbrev pub neg : ℕ → ℤ
neg zero = pos 0
neg (suc n) = negsuc n

-- `(a - b).num_milliseconds()`.
abbrev pub num_milliseconds : ℕ → ℕ → ℤ
num_milliseconds a b = if leb b a then pos ((a - b) / 1000000) else neg ((b - a) / 1000000)

pub record TraceSpan : Type 0 where
  pub event_id : Text
  pub subject : Text
  pub source : Text
  pub event_type : Text
  pub timestamp : ℕ
  pub offset_ms : ℤ
  pub payload_preview : Text

pub record Trace : Type 0 where
  pub correlation_id : Text
  pub started_at : ℕ
  pub last_event_at : ℕ
  pub duration_ms : ℤ
  pub span_count : ℕ
  pub spans : List TraceSpan

abbrev pub max_spans_per_trace : ℕ
max_spans_per_trace = 500

-- What the collector reads of an event.
pub record Seen : Type 0 where
  pub correlation_id : Text
  pub event_id : Text
  pub subject : Text
  pub source : Text
  pub event_type : Text
  pub timestamp : ℕ
  pub payload_preview : Text

abbrev pub is_ignored : Text → Bool
is_ignored subject = starts_with (codes "trace.") subject || starts_with (codes "_INBOX") subject

abbrev pub ellipsis : Option (Text × Text) → Option Text
ellipsis none = none
ellipsis (some (start, rest)) = some (start ++ codes "...")

-- The first 500 bytes of a long text, which panics within a character.
abbrev pub shortened : Text → Option Text
shortened s = let cut = ellipsis (split_at 500 s) in if ltb 500 (length s) then cut else some s

-- serde_json, and the parsing of times.
pub record Envelopes (V : Type 0) : Type 0 where
  pub documents : Documents V
  pub from_slice : Text → Option V
  pub print : V → Text
  pub parse_time : Text → Option ℕ

-- What comes of a message: nothing to collect, an event, or a panic.
pub data Reading : Type 0 where
  skip : Reading
  seen : Seen → Reading
  panic : Reading

module _ {V : Type 0} (env : Envelopes V) where
  open env use {documents, from_slice, print, parse_time}

  abbrev pub preview_of : Option V → Option Text
  preview_of none = some []
  preview_of (some p) = shortened (print p)

  abbrev pub time_of : ℕ → Option Text → ℕ
  time_of now none = now
  time_of now (some s) = unwrap_or now (parse_time s)

  abbrev pub unknown : V → Text → Text
  unknown e key = unwrap_or (codes "unknown") (documents.string e key)

  abbrev pub with_preview : ℕ → Text → V → Text → Option Text → Reading
  with_preview now subject e correlation_id none = panic
  with_preview now subject e correlation_id (some preview) = seen (record {
    correlation_id = correlation_id;
    event_id = unknown e (codes "id");
    subject = subject;
    source = unknown e (codes "source");
    event_type = unknown e (codes "event_type");
    timestamp = time_of now (documents.string e (codes "timestamp"));
    payload_preview = preview;
  })

  abbrev pub correlated : ℕ → Text → V → Option Text → Reading
  correlated now subject e none = skip
  correlated now subject e (some correlation_id) =
      with_preview now subject e correlation_id (preview_of (documents.field e (codes "payload")))

  abbrev pub parsed : ℕ → Text → Option V → Reading
  parsed now subject none = skip
  parsed now subject (some e) =
      correlated now subject e (documents.string e (codes "correlation_id"))

  unfoldable pub read_event : ℕ → Text → Text → Reading
  read_event now subject payload =
      let reading = parsed now subject (from_slice payload) in
      if is_ignored subject then skip else reading

abbrev pub new_trace : Seen → Trace
new_trace e = record {
  correlation_id = e.correlation_id;
  started_at = e.timestamp;
  last_event_at = e.timestamp;
  duration_ms = pos 0;
  span_count = 0;
  spans = [];
}

abbrev pub span_of : Seen → Trace → TraceSpan
span_of e t = record {
  event_id = e.event_id;
  subject = e.subject;
  source = e.source;
  event_type = e.event_type;
  timestamp = e.timestamp;
  offset_ms = num_milliseconds e.timestamp t.started_at;
  payload_preview = e.payload_preview;
}

abbrev pub is_full : ℕ → Trace → Bool
is_full max_spans t = leb max_spans (length t.spans)

-- A trace that is full counts the event without a span.
abbrev pub count_only : Seen → Trace → Trace
count_only e t = record t {
  last_event_at = e.timestamp;
  duration_ms = num_milliseconds e.timestamp t.started_at;
  span_count = next_u64 t.span_count;
}

abbrev pub push_span : Seen → Trace → Trace
push_span e t = record t {
  last_event_at = e.timestamp;
  duration_ms = num_milliseconds e.timestamp t.started_at;
  span_count = length (t.spans ++ span_of e t ∷ []);
  spans = t.spans ++ span_of e t ∷ [];
}

-- `min_by_key(last_event_at)`: the first of the traces with the earliest last event.
unfoldable pub oldest_of : Text × Trace → HashMap Trace → Text × Trace
oldest_of best [] = best
oldest_of best (entry ∷ traces) =
    oldest_of (if ltb entry.1.last_event_at best.1.last_event_at then entry else best) traces

abbrev pub remove_oldest : HashMap Trace → HashMap Trace
remove_oldest [] = []
remove_oldest (entry ∷ traces) = remove (entry ∷ traces) (oldest_of entry traces).0

abbrev pub evict : ℕ → HashMap Trace → HashMap Trace
evict max_traces traces =
    let fewer = remove_oldest traces in if ltb max_traces (length traces) then fewer else traces

unfoldable pub record_event : ℕ → ℕ → Seen → HashMap Trace → HashMap Trace
record_event max_traces max_spans e traces =
    let trace = unwrap_or (new_trace e) (get traces e.correlation_id) in
    let pushed = evict max_traces (insert traces e.correlation_id (push_span e trace)) in
    if is_full max_spans trace then insert traces e.correlation_id (count_only e trace) else pushed

abbrev pub after_reading : ℕ → ℕ → HashMap Trace → Reading → Option (HashMap Trace)
after_reading max_traces max_spans traces skip = some traces
after_reading max_traces max_spans traces (seen e) =
    some (record_event max_traces max_spans e traces)
after_reading max_traces max_spans traces panic = none

unfoldable pub collect :
    {V : Type 0} → Envelopes V → ℕ → ℕ → ℕ → Text → Text → HashMap Trace → Option (HashMap Trace)
collect env max_traces max_spans now subject payload traces =
    after_reading max_traces max_spans traces (read_event env now subject payload)

-- Every minute: the traces with an event in the last 30 minutes.
abbrev pub half_hour : ℕ
half_hour = 1800 * 1000000000

unfoldable pub compact : ℕ → HashMap Trace → HashMap Trace
compact now traces = retain (λ e. ltb (now - half_hour) e.1.last_event_at) traces
