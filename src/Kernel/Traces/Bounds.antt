-- ===== src/Kernel/Traces/Bounds.antt =====
-- The limits that crates/core/seidrum-kernel/src/trace_collector/service.rs keeps to.
use seidrum.Base.{
  ℕ, ◌+◌, ◌-◌, ◌≤◌, ◌<◌, if◌then◌else◌, ltb, Text, text_eq_refl, Bool, true, false, Option, none,
  some, [], ◌∷◌, length, length-append, length-retain-le, ◌≡◌, refl, subst, sym, inl, inr,
  Bool-cases, arith,
}
use seidrum.Base.Maps.{HashMap, get, insert}
use seidrum.Base.Maps.Values.{
  has_key, length-insert-le, length-insert_known, length-remove-lt, AllValues, insert-AllValues,
  remove-AllValues, some_injective, retain-AllValues, get-AllValues,
}
use seidrum.Kernel.Capabilities.{unwrap_or}
use seidrum.Kernel.Traces.{
  Trace, Seen, Envelopes, Reading, skip, seen, panic, read_event, new_trace, is_full, count_only,
  push_span, span_of, oldest_of, remove_oldest, evict, record_event, after_reading, collect,
  compact, half_hour,
}

choice_has_key :
    (b : Bool) (e best : Text × Trace) (traces : HashMap Trace) (k : Text)
    → has_key ((if b then e else best) ∷ traces) k ≡ true
    → has_key (best ∷ e ∷ traces) k ≡ true
choice_has_key true e best traces k h = ground arith
choice_has_key false e best traces k h = ground arith

oldest_of-has_key :
    (best : Text × Trace) (traces : HashMap Trace)
    → has_key (best ∷ traces) (oldest_of best traces).0 ≡ true
unfolding oldest_of
oldest_of-has_key best [] = rw (text_eq_refl best.0) refl
oldest_of-has_key best (e ∷ traces) =
    let older = ltb e.1.last_event_at best.1.last_event_at in
    choice_has_key older e best traces (oldest_of (if older then e else best) traces).0
      (oldest_of-has_key (if older then e else best) traces)

length-remove_oldest :
    (traces : HashMap Trace) → 0 < length traces → length (remove_oldest traces) < length traces
length-remove_oldest [] h = elim h [ ]
length-remove_oldest (e ∷ traces) h =
    length-remove-lt (e ∷ traces) (oldest_of e traces).0 (oldest_of-has_key e traces)

module _ (max_traces max_spans : ℕ) where
  length-evict :
      (traces : HashMap Trace)
      → length traces ≤ max_traces + 1
      → length (evict max_traces traces) ≤ max_traces
  length-evict traces h = ground (arith, length-remove_oldest traces)

  abbrev pub Fits : Trace → Type 0
  Fits t = length t.spans ≤ max_spans

  remove_oldest-AllValues :
      (traces : HashMap Trace) → AllValues Fits traces → AllValues Fits (remove_oldest traces)
  remove_oldest-AllValues [] h = tt
  remove_oldest-AllValues (e ∷ traces) h =
      remove-AllValues Fits (e ∷ traces) (oldest_of e traces).0 h

  evict-AllValues :
      (traces : HashMap Trace) → AllValues Fits traces → AllValues Fits (evict max_traces traces)
  evict-AllValues traces h = elim (Bool-cases (ltb max_traces (length traces))) [
    | inl over ↦ rw over (remove_oldest-AllValues traces h)
    | inr within ↦ rw within h
  ]

  abbrev pub IsBounded : HashMap Trace → Type 0
  IsBounded traces = (length traces ≤ max_traces) × AllValues Fits traces

  push_span-Fits : (e : Seen) (t : Trace) → is_full max_spans t ≡ false → Fits (push_span e t)
  push_span-Fits e t room = ground (arith, length-append t.spans (span_of e t ∷ []))

  pushed-IsBounded :
      (e : Seen) (t : Trace) (traces : HashMap Trace)
      → is_full max_spans t ≡ false
      → IsBounded traces
      → IsBounded (evict max_traces (insert traces e.correlation_id (push_span e t)))
  pushed-IsBounded e t traces room (few, fit) =
      let pushed = insert traces e.correlation_id (push_span e t) in
      (
        length-evict pushed
            (omega (arith, length-insert-le traces e.correlation_id (push_span e t))),
        evict-AllValues pushed (
            insert-AllValues Fits traces e.correlation_id (push_span e t) (push_span-Fits e t room)
              fit),
      )

  counted-IsBounded :
      (e : Seen) (t : Trace) (traces : HashMap Trace)
      → get traces e.correlation_id ≡ some t
      → IsBounded traces
      → IsBounded (insert traces e.correlation_id (count_only e t))
  counted-IsBounded e t traces is (few, fit) = (
    omega (arith, length-insert_known traces e.correlation_id (count_only e t) t is),
    insert-AllValues Fits traces e.correlation_id (count_only e t)
        (get-AllValues Fits traces e.correlation_id t fit is) fit,
  )

  new_has_room : (e : Seen) → 0 < max_spans → is_full max_spans (new_trace e) ≡ false
  new_has_room e positive = ground arith

  -- The trace that an event goes to.
  record_in :
      (e : Seen) (traces : HashMap Trace) (o : Option Trace)
      → get traces e.correlation_id ≡ o
      → 0 < max_spans
      → IsBounded traces
      → let t = unwrap_or (new_trace e) o in
        IsBounded (
          if is_full max_spans t
          then insert traces e.correlation_id (count_only e t)
          else evict max_traces (insert traces e.correlation_id (push_span e t)))
  record_in e traces none is positive bounded =
      rw (new_has_room e positive)
        (pushed-IsBounded e (new_trace e) traces (new_has_room e positive) bounded)
  record_in e traces (some t) is positive bounded = elim (Bool-cases (is_full max_spans t)) [
    | inl full ↦ rw full (counted-IsBounded e t traces is bounded)
    | inr room ↦ rw room (pushed-IsBounded e t traces room bounded)
  ]

  record_event-IsBounded :
      (e : Seen) (traces : HashMap Trace)
      → 0 < max_spans
      → IsBounded traces
      → IsBounded (record_event max_traces max_spans e traces)
  unfolding record_event
  record_event-IsBounded e traces positive bounded =
      record_in e traces (get traces e.correlation_id) refl positive bounded

  compact-IsBounded :
      (now : ℕ) (traces : HashMap Trace) → IsBounded traces → IsBounded (compact now traces)
  unfolding compact
  compact-IsBounded now traces (few, fit) = (
    omega (arith, length-retain-le (λ e. ltb (now - half_hour) e.1.last_event_at) traces),
    retain-AllValues Fits (λ e. ltb (now - half_hour) e.1.last_event_at) traces fit,
  )

  after_reading-IsBounded :
      (traces traces' : HashMap Trace) (r : Reading)
      → 0 < max_spans
      → IsBounded traces
      → after_reading max_traces max_spans traces r ≡ some traces'
      → IsBounded traces'
  after_reading-IsBounded traces traces' skip positive bounded h =
      subst IsBounded (some_injective h) bounded
  after_reading-IsBounded traces traces' (seen e) positive bounded h =
      subst IsBounded (some_injective h) (record_event-IsBounded e traces positive bounded)
  after_reading-IsBounded traces traces' panic positive bounded h = cc

-- The states of the collector: it starts with no traces, collects messages and compacts.
module _ {V : Type 0} (env : Envelopes V) (max_traces max_spans : ℕ) where
  pub data Collected : HashMap Trace → Type 0 where
    starts : (traces : HashMap Trace) → traces ≡ [] → Collected traces
    collects :
        (now : ℕ) (subject payload : Text) (traces traces' : HashMap Trace)
        → Collected traces
        → collect env max_traces max_spans now subject payload traces ≡ some traces'
        → Collected traces'
    compacts :
        (now : ℕ) (traces traces' : HashMap Trace)
        → Collected traces
        → compact now traces ≡ traces'
        → Collected traces'

  -- Whatever messages come and whenever it compacts, the collector of traces has at most its
  -- maximum of traces, each with at most the maximum of spans, if that is not 0.
  pub Collected-IsBounded :
      (traces : HashMap Trace)
      → 0 < max_spans
      → Collected traces
      → IsBounded max_traces max_spans traces
  unfolding collect
  Collected-IsBounded traces positive (starts _ empty) =
      subst (IsBounded max_traces max_spans) (sym empty) (omega arith, tt)
  Collected-IsBounded traces positive (collects now subject payload before _ reached h) =
      after_reading-IsBounded max_traces max_spans before traces
        (read_event env now subject payload) positive (Collected-IsBounded before positive reached)
        h
  Collected-IsBounded traces positive (compacts now before _ reached h) =
      subst (IsBounded max_traces max_spans) h (
        compact-IsBounded max_traces max_spans now before
          (Collected-IsBounded before positive reached))
