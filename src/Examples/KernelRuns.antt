-- ===== src/Examples/KernelRuns.antt =====
-- The services of the kernel at concrete inputs.
use seidrum.Base.{
  ℕ, zero, suc, ◌%◌, ◌==◌, Text, codes, text_eq, starts_with, ◌&&◌, none, some, List, [], ◌∷◌, any,
  ◌≡◌, refl, arith, if◌then◌else◌,
}
use seidrum.Base.Maps.{HashMap, get, insert, remove}
use seidrum.Base.Maps.Named.{holds}
use seidrum.Error.{ok, err}
use seidrum.Kernel.Registry.{
  deregister_plugin, PluginRegister, ask_consumers, RegistryMessage, registered, deregistered,
  handle_query, after_messages,
}
use seidrum.Kernel.Registry.Queries.{Answers, current, handle_query-Answers}
use seidrum.Store.{next_u32}
use seidrum.Kernel.Health.{
  count_failures, count_failure, reset_each, Check, timed_out, run_health_check, after_checks,
}
use seidrum.Kernel.Health.Counts.{listed}
use seidrum.Kernel.Health.Streaks.{
  is_failed, ping, pings, trailing, AllRegistries, run_health_check-third,
}
use seidrum.Kernel.Capabilities.{
  ToolSearchRequest, Backend, Tools, deregister_by_plugin, handle_search,
}
use seidrum.Kernel.Capabilities.Owned.{IsTools, deregister_by_plugin_lem}
use seidrum.Kernel.Cleanup.{
  deregister_plugins, deregister_owned, is_third, run_health_check-cleanup,
}
use seidrum.Kernel.Capabilities.Search.{Searched, handle_search-Searched}
use seidrum.Kernel.Traces.{shortened, Trace, Envelopes, collect, read_event, record_event}
use seidrum.Kernel.Traces.Requests.{TraceListRequest, trace_list}
use seidrum.Telegram.{split_at}
use seidrum.Kernel.Traces.Bounds.{IsBounded, starts, collects, Collected-IsBounded}
use seidrum.Kernel.Traces.Lists.{Trusted, Newest, trace_list-Listing}

abbrev Nothing : Type 0
Nothing = Unit {0}

abbrev plugin : Text → PluginRegister Nothing
plugin id = record {
  id = id;
  name = id;
  version = codes "1";
  description = [];
  consumes = codes "channel.inbound" ∷ [];
  produces = [];
  health_subject = [];
  consumed_event_types = [];
  produced_event_types = [];
  config_schema = none;
}

abbrev messages : List (RegistryMessage Nothing)
messages =
    deregistered (codes "b")
    ∷ registered (plugin (codes "b"))
    ∷ registered (plugin (codes "a"))
    ∷ []

handle_query-Answers_example :
    Answers
      (current messages)
      (ask_consumers (codes "channel.inbound"))
      (handle_query (after_messages messages) (ask_consumers (codes "channel.inbound")))
handle_query-Answers_example =
    handle_query-Answers messages (ask_consumers (codes "channel.inbound"))

-- A check in which every plugin that is registered times out.
abbrev silent : List (Text × PluginRegister Nothing) → Check Nothing
silent plugins = record {
  registry = plugins;
  replies = λ p. timed_out;
  start_time = 0;
  now = 90000;
}

abbrev one_plugin : List (Text × PluginRegister Nothing)
one_plugin = (codes "a", plugin (codes "a")) ∷ []

one_plugin-IsRegistry :
    AllRegistries (silent one_plugin ∷ silent one_plugin ∷ silent one_plugin ∷ [])
unfolding get
one_plugin-IsRegistry =
    (((refl, tt), (refl, tt)), (((refl, tt), (refl, tt)), (((refl, tt), (refl, tt)), tt)))

run_health_check-third_example :
    listed
      (run_health_check
        (silent one_plugin)
        (after_checks (silent one_plugin ∷ silent one_plugin ∷ []))).0
      (codes "a")
    ≡ (is_failed (ping (silent one_plugin) (codes "a"))
        && (trailing
                (pings (silent one_plugin ∷ silent one_plugin ∷ silent one_plugin ∷ []) (codes "a"))
              % 3
            == 0))
run_health_check-third_example =
    run_health_check-third (silent one_plugin) (silent one_plugin ∷ silent one_plugin ∷ [])
      (codes "a") one_plugin-IsRegistry

-- A plugin that failed twice, was deregistered and registered again is deregistered by its first
-- failure.
stale_test :
    (run_health_check
      (silent one_plugin)
      (after_checks (silent [] ∷ silent one_plugin ∷ silent one_plugin ∷ []))).0
    ≡ codes "a" ∷ []
unfolding run_health_check after_checks get insert remove text_eq count_failures count_failure
    reset_each next_u32
stale_test = refl

-- A database that takes every write and finds nothing, and a bus that counts messages.
abbrev backend : Backend Nothing ℕ
backend = record {
  load = λ w. (ok [], w);
  upsert = λ p w. (ok tt, w);
  remove_plugin = λ p w. (err [], w);
  search = λ r limit w. (ok [], w);
  publish_registered = λ t w. suc w;
  publish_deregistered = λ id p w. suc w;
}

abbrev tools : Tools Nothing
tools =
    (
      codes "t",
      record {
        tool_id = codes "t";
        plugin_id = codes "a";
        name = [];
        summary_md = [];
        manual_md = [];
        parameters = tt;
        call_subject = [];
        kind = codes "tool";
      },
    )
    ∷ []

tools-IsTools : IsTools tools
unfolding get
tools-IsTools = ((refl, tt), (refl, tt))

run_health_check-cleanup_example :
    let dead =
      (run_health_check
        (silent one_plugin)
        (after_checks (silent one_plugin ∷ silent one_plugin ∷ []))).0 in
    let third = is_third (silent one_plugin) (silent one_plugin ∷ silent one_plugin ∷ []) in
    (get (deregister_plugins dead one_plugin) (codes "a")
      ≡ (if third (codes "a") then none else get one_plugin (codes "a")))
    × (get (deregister_owned backend dead (tools, 0)).0 (codes "t") ≡ (
        if holds (λ t. third t.plugin_id) (get tools (codes "t"))
        then none
        else get tools (codes "t")))
run_health_check-cleanup_example =
    run_health_check-cleanup backend (silent one_plugin)
      (silent one_plugin ∷ silent one_plugin ∷ []) one_plugin tools 0 (codes "a") (codes "t")
      one_plugin-IsRegistry tools-IsTools

-- The third check in which a plugin is silent takes it away.
cleaned_test :
    deregister_plugins
      (run_health_check
        (silent one_plugin)
        (after_checks (silent one_plugin ∷ silent one_plugin ∷ []))).0
      one_plugin
    ≡ []
unfolding run_health_check after_checks get insert remove text_eq count_failures count_failure
    reset_each next_u32 deregister_plugins deregister_plugin
cleaned_test = refl

deregister_by_plugin_lem_example :
    (any (λ t. text_eq t (codes "t")) (deregister_by_plugin backend (codes "a") (tools, 0)).0
      ≡ holds (λ t. text_eq t.plugin_id (codes "a")) (get tools (codes "t")))
    × (get (deregister_by_plugin backend (codes "a") (tools, 0)).1.0 (codes "t") ≡ (
        if holds (λ t. text_eq t.plugin_id (codes "a")) (get tools (codes "t"))
        then none
        else get tools (codes "t")))
    × IsTools (deregister_by_plugin backend (codes "a") (tools, 0)).1.0
deregister_by_plugin_lem_example =
    deregister_by_plugin_lem backend (codes "a") tools 0 (codes "t") tools-IsTools

abbrev anything : ToolSearchRequest
anything = record { query_text = codes "q"; limit = none; kind_filter = some (codes "tool") }

handle_search-Searched_example :
    Searched tools (some (codes "tool")) 5 (ok []) (handle_search backend tools anything 0).0
handle_search-Searched_example = handle_search-Searched backend tools anything 0 tools-IsTools

-- JSON whose objects are texts, each the value of all its fields.
abbrev envelopes : Envelopes Text
envelopes = record {
  documents = record { field = λ v k. some v; string = λ v k. some v; empty = [] };
  from_slice = λ s. some s;
  print = λ v. v;
  parse_time = λ s. none;
}

abbrev hello_traces : HashMap Trace
hello_traces =
    record_event 2 500
      (record {
        correlation_id = codes "hello";
        event_id = codes "hello";
        subject = codes "channel.inbound";
        source = codes "hello";
        event_type = codes "hello";
        timestamp = 7;
        payload_preview = codes "hello";
      })
      []

hello_collects :
    collect envelopes 2 500 7 (codes "channel.inbound") (codes "hello") [] ≡ some hello_traces
unfolding collect read_event starts_with
hello_collects = refl

Collected-IsBounded_example : IsBounded 2 500 hello_traces
Collected-IsBounded_example = Collected-IsBounded envelopes 2 500 hello_traces (omega arith) (
    collects 7 (codes "channel.inbound") (codes "hello") [] hello_traces (starts [] refl)
      hello_collects)

abbrev latest : TraceListRequest
latest = record { limit = some 1; since = none; auth_source = some (codes "kernel") }

trace_list-Listing_example :
    (Trusted latest.auth_source → Newest hello_traces latest (trace_list hello_traces latest))
    × (¬ Trusted latest.auth_source → trace_list hello_traces latest ≡ [])
unfolding record_event get insert
trace_list-Listing_example = trace_list-Listing hello_traces latest (omega arith, tt)

-- A long text in which a character of two bytes lies across the 500th byte.
abbrev accented : ℕ → Text
accented zero = 195 ∷ 169 ∷ []
accented (suc n) = 97 ∷ accented n

preview_test : shortened (accented 499) ≡ none
unfolding split_at
preview_test = refl
