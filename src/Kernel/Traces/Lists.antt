-- ===== src/Kernel/Traces/Lists.antt =====
-- What `trace.list` and `trace.get` of crates/core/seidrum-kernel/src/trace_collector/service.rs answer.
use mathlib.Core.List.{Perm}
use seidrum.Base.{
  All-map, split-perm, retain-All, All-retain, take_rest, take_rest, split-perm, All-retain,
  retain-All, All, not, Option, none, some, Text, codes, text_eq, text_eq→eq, ◌≤◌, leb→le, ◌-◌,
  Bool-cases, inl, inr, length-map, min, ◌++◌, length-take, ℕ, true, List, [], ◌∷◌, map, take,
  length, retain, ◌≡◌, refl, sym, subst, arith,
}
use seidrum.Base.Maps.{HashMap, values}
use seidrum.Index.Sort.{
  sort_by_key, sort_by_key-IsSorted, sort_by_key-perm, length-sort_by_key, IsSorted, AllFrom,
  All-sort_by_key,
}
use seidrum.Kernel.Capabilities.{unwrap_or}
use seidrum.Kernel.Traces.{Trace}
use seidrum.Kernel.Traces.Requests.{
  TraceSummary, TraceListRequest, is_authorized, summary_of, is_since, reverse_start, trace_list,
  time_max,
}

-- A trace that a request with this time asks for.
abbrev pub IsSince : Option ℕ → Trace → Type 0
IsSince none t = Unit
IsSince (some since) t = since ≤ t.started_at

is_since-IsSince : (since : Option ℕ) (t : Trace) → is_since since t ≡ true → IsSince since t
is_since-IsSince none t h = tt
is_since-IsSince (some since) t h = leb→le since t.started_at h

is_since-false : (since : Option ℕ) (t : Trace) → not (is_since since t) ≡ true → ¬ IsSince since t
is_since-false none t h = cc
is_since-false (some since) t h = λ later. ground (arith, later)

-- Each summary before those that started no later.
abbrev pub NewestFirst : List TraceSummary → Type 0
NewestFirst [] = Unit
NewestFirst (s ∷ ss) = All (λ t. t.started_at ≤ s.started_at) ss × NewestFirst ss

abbrev InTime : TraceSummary → Type 0
InTime s = s.started_at ≤ time_max

AllFrom-newest :
    (start : ℕ) (ss : List TraceSummary)
    → All InTime ss
    → AllFrom reverse_start (time_max - start) ss
    → All (λ t. t.started_at ≤ start) ss
AllFrom-newest start [] in_time h = tt
AllFrom-newest start (s ∷ ss) in_time h =
    (omega (arith, in_time.0, h.0), AllFrom-newest start ss in_time.1 h.1)

IsSorted-NewestFirst :
    (ss : List TraceSummary) → All InTime ss → IsSorted reverse_start ss → NewestFirst ss
IsSorted-NewestFirst [] in_time h = tt
IsSorted-NewestFirst (s ∷ ss) in_time h =
    (AllFrom-newest s.started_at ss in_time.1 h.0, IsSorted-NewestFirst ss in_time.1 h.1)

All-summary_of :
    (ts : List Trace) → All (λ t. t.started_at ≤ time_max) ts → All InTime (map summary_of ts)
All-summary_of [] h = tt
All-summary_of (t ∷ ts) h = (h.0, All-summary_of ts h.1)

-- What a trusted source gets: the summaries of the traces `kept` since the time asked for, as many
-- as the limit, the newest first. The `rest` are those beyond the limit.
pub record Newest (traces : HashMap Trace) (req : TraceListRequest) (listed : List TraceSummary)
    : Type 0 where
  pub kept : List Trace
  pub others : List Trace
  pub whole : Perm (kept ++ others) (values traces)
  pub kept_since : All (IsSince req.since) kept
  pub others_before : All (λ t. ¬ IsSince req.since t) others
  pub rest : List TraceSummary
  pub listed_kept : Perm (listed ++ rest) (map summary_of kept)
  pub newest : NewestFirst (listed ++ rest)
  pub limited : length listed ≡ min (unwrap_or 50 req.limit) (length kept)

pub data Trusted : Option Text → Type 0 where
  api_gateway : Trusted (some (codes "api-gateway"))
  kernel : Trusted (some (codes "kernel"))
  seidrum_cli : Trusted (some (codes "seidrum-cli"))
  dashboard : Trusted (some (codes "dashboard"))

is_authorized-Trusted : (source : Option Text) → is_authorized source ≡ true → Trusted source
is_authorized-Trusted none h = cc
is_authorized-Trusted (some source) h = elim (Bool-cases (text_eq (codes "api-gateway") source)) [
  | inl same ↦
      subst (λ s. Trusted (some s)) (text_eq→eq (codes "api-gateway") source same) api_gateway
  | inr n₁ ↦ elim (Bool-cases (text_eq (codes "kernel") source)) [
    | inl same ↦ subst (λ s. Trusted (some s)) (text_eq→eq (codes "kernel") source same) kernel
    | inr n₂ ↦ elim (Bool-cases (text_eq (codes "seidrum-cli") source)) [
      | inl same ↦
          subst (λ s. Trusted (some s)) (text_eq→eq (codes "seidrum-cli") source same) seidrum_cli
      | inr n₃ ↦
          subst (λ s. Trusted (some s)) (text_eq→eq (codes "dashboard") source (ground arith))
            dashboard
    ]
  ]
]

Trusted-is_authorized : (source : Option Text) → Trusted source → is_authorized source ≡ true
unfolding text_eq
Trusted-is_authorized _ api_gateway = refl
Trusted-is_authorized _ kernel = refl
Trusted-is_authorized _ seidrum_cli = refl
Trusted-is_authorized _ dashboard = refl

-- The list without the test of the source.
trace_list-Newest :
    (traces : HashMap Trace) (req : TraceListRequest)
    → All (λ t. t.started_at ≤ time_max) (values traces)
    → Newest traces req (
        take (unwrap_or 50 req.limit) (
          sort_by_key reverse_start (map summary_of (retain (is_since req.since) (values traces)))))
trace_list-Newest traces req in_time =
    let kept = retain (is_since req.since) (values traces) in
    let sorted = sort_by_key reverse_start (map summary_of kept) in
    let (rest, whole) = take_rest (unwrap_or 50 req.limit) sorted in
    record {
      kept = kept;
      others = retain (λ t. not (is_since req.since t)) (values traces);
      whole = split-perm (is_since req.since) (values traces);
      kept_since = retain-All _ (is_since req.since) (values traces) (is_since-IsSince req.since);
      others_before = retain-All _ _ (values traces) (is_since-false req.since);
      rest = rest;
      listed_kept =
          subst (λ l. Perm l (map summary_of kept)) (sym whole)
            (sort_by_key-perm reverse_start (map summary_of kept));
      newest = subst NewestFirst (sym whole) (
          IsSorted-NewestFirst sorted
            (All-sort_by_key reverse_start InTime (map summary_of kept) (
              All-summary_of kept (
                All-map _ _ kept (λ t h. h.0)
                  (All-retain _ (is_since req.since) (values traces) in_time))))
            (sort_by_key-IsSorted reverse_start (map summary_of kept)));
      limited = omega (
        arith,
        length-take (unwrap_or 50 req.limit) sorted,
        length-sort_by_key reverse_start (map summary_of kept),
        length-map summary_of kept,
      );
    }

-- Over traces whose times are at most 2^75, which no time of chrono reaches, a request gets
-- nothing unless its source is one of the four that are trusted. If it is, it gets the summaries
-- of the traces that started since the time asked for, if it asks for one: as many as the limit,
-- or 50, the newest first, and none that it leaves out is newer.
pub trace_list-Listing :
    (traces : HashMap Trace) (req : TraceListRequest)
    → All (λ t. t.started_at ≤ time_max) (values traces)
    → (Trusted req.auth_source → Newest traces req (trace_list traces req))
      × (¬ Trusted req.auth_source → trace_list traces req ≡ [])
unfolding trace_list
trace_list-Listing traces req in_time = (
  λ trusted.
      rw (Trusted-is_authorized req.auth_source trusted) (trace_list-Newest traces req in_time),
  λ untrusted. elim (Bool-cases (is_authorized req.auth_source)) [
    | inl passes ↦ absurd (untrusted (is_authorized-Trusted req.auth_source passes))
    | inr refused ↦ rw refused refl
  ],
)
