-- ===== src/Lib.antt =====
-- Verification of Seidrum: its event bus, the agent runtime, and logic of the kernel and of plugins.
-- Paths are from the repository's root; `bus` stands for crates/core/seidrum-eventbus/src.
--
-- The bus stores each published event, looks up the subscriptions whose pattern matches its subject,
-- runs the synchronous ones in the order of their priorities, sends the event to the others, and
-- records for each subscriber how its delivery went. Failed deliveries carry the time of their next
-- attempt. The dispatch engine calls the subject index, the filters and the store. The agent runtime
-- runs the turns of sessions: it asks a provider, runs the tools that the provider calls, and stores
-- every step; jobs run turns, tools are guarded by rules and audited, and answers become deliveries.
-- The kernel keeps registries of plugins and of their capabilities, which the messages of its health
-- checks and of the plugins change, and collects the traces of events.
--
-- Files and what they model:
--   Subject    `str::split('.')` on subjects, and when a pattern of tokens matches a subject
--   Filter     bus/dispatch/filter.rs: `EventFilter::matches`. Filter.Meaning is the same without depths
--   Index      bus/dispatch/subject_index.rs: the trie, one function per method, recursive on the tokens
--              that are left where the code counts a depth. Index.Contract is its abstract view, a
--              collection of subscriptions, and Index.Ties the order of equal priorities
--   Store      bus/storage/types.rs; Store.Memory is bus/storage/memory_store.rs, one function per
--              method from a store to a result and a store. Store.Interface is the part of the trait
--              `EventStore` that the engine calls, with the laws that it relies on
--   Backoff    bus/delivery/retry.rs: the backoff times
--   Channel    bus/delivery/mod.rs: channel configurations and delivery errors
--   Error      bus/lib.rs and bus/storage/mod.rs: errors as values; a formatted message is a constructor
--   Dispatch   bus/dispatch/engine.rs: subscribing; Dispatch.Record, Dispatch.Chain and Dispatch.Publish
--              are the stages of `dispatch_persisted_event`, `publish_event`, `replay_dead_lettered`;
--              Dispatch.Api is `publish` of bus/bus.rs;
--              Dispatch.Retry is `retry_to_subscriber` and the retry task of bus/delivery/retry.rs.
--              Dispatch.Effects, Delivery, Dispatched, Published, Replay, Finalize, Gone and Poll are
--              about what these leave in the store (Finalize.Rules and Closes about one delivery and
--              its event, Poll.Missing about an event that is gone), Dispatch.Live about the
--              subscriptions, senders and interceptors
--   Agent      crates/core/seidrum-agent-runtime/src/lib.rs. Agent has the data, Agent.Action the
--              functions that return `Result` in a world, Agent.Turns the turn records and their store,
--              Agent.Turn `AgentRuntime`, Agent.Permission the rules, audits and guarded executors,
--              Agent.Outbox the deliveries, Agent.Job the forced runs, Agent.Boundary the adapters to the
--              router and the dispatcher (with messages of seidrum-common/src/events.rs).
--              Agent.Boundary.Calls is about the tools of the dispatcher. Agent.Turn.Progress says how a
--              turn may extend its session; Writes, History, Trace, Replay, Rounds and Answers are about turns,
--              Agent.Permission.Rules and Audits, Agent.Outbox.Retries, and Agent.Job.Outcome, Runs and
--              Ends about the rest
--   Scope      crates/core/seidrum-kernel/src/scope/service.rs: `resolve_scopes`. Scope.Reach says which
--              scopes links lead to, Scope.Ends how much fuel is enough
--   Guardrails crates/core/seidrum-kernel/src/consciousness/guardrails.rs, and the loop of
--              consciousness/service.rs over the calls of a response; Guardrails.Counts is about the counts of
--              calls, Guardrails.Runs about calls that nothing stops
--   Telegram   crates/plugins/seidrum-telegram/src/split.rs: `split_message`, on bytes
--   Routing    crates/plugins/seidrum-llm-router/src/routing.rs: `select_provider`
--   Webhook    bus/delivery/webhook.rs: the validation of webhook URLs, with the ranges of addresses
--              that it refuses; Webhook.Addresses and Public are about where accepted URLs lead.
--              Webhook.Circuit has the circuits of `WebhookChannel`, Webhook.Channel its deliveries;
--              Webhook.Circuit.Bounds is about outages, Webhook.Channel.Deliveries about what
--              deliveries leave of the circuits, and Webhook.Channel.Dials about what they connect to
--   Kernel     crates/core/seidrum-kernel/src: Kernel.Registry is registry/service.rs, Kernel.Health the
--              health checks of scheduler/service.rs, Kernel.Capabilities tool_registry/service.rs, and
--              Kernel.Traces and Kernel.Traces.Requests are trace_collector/service.rs. Their other
--              children are about answers (Queries), failures in a row (Counts, Streaks), whose
--              capabilities there are (Owned), searches (Search), limits (Bounds) and lists of traces
--              (Lists). Kernel.Cleanup is how the first three act together: what a health check
--              deregisters, the registry and the capabilities take away
--   Examples   the theorems at concrete inputs, and runs of the code
--
-- State and interleaving. The engine is a record `Engine` of what it calls, and what changes is a `Bus`:
-- the store, two counters and the world outside. A dispatch reads the subscriptions under the lock
-- three times, and other tasks may change them in between, so the three reads are arguments (`Reads`).
-- Two dispatches at once are not modelled: the store is the dispatch's own from `append` on. The clock,
-- random numbers, tokio's channels, spawned interceptors and serde_json are parameters (`Runtime`,
-- `Json`). The task-locals that interceptors read (the sequence number and the time) are left out, but
-- for the subject of the running interceptor, which `publish_event` tests.
-- The agent runtime acts on one world, which its stores, provider, tools and ids read and change. Two
-- turns at once are not modelled. Ids (ULIDs), the provider and the tools are parameters, and so are
-- the stores where the code has a trait, with their laws (`StoreLaws`, `AuditLaws`, `OutboxLaws`,
-- `JobLaws`): a call does its work or reports an error and changes nothing. The locks of the in-memory
-- stores are never poisoned. Scopes are read from a database that stays as it is during a resolution.
--
-- A `HashMap` is the list of its entries (Base.Maps), in some order. The services of the kernel act on
-- one message at a time, as their loops do; the webhook channel locks its circuits for each change, and
-- two deliveries at once are not modelled. Times are nanoseconds, which do not overflow.
--
-- Numbers. Sequence numbers, attempts and the counters wrap around at 64 and 32 bits as in a release
-- build; backoff times saturate. A subscription's priority is a number of 32 bits that no operation
-- changes. The rounds of a turn are bounded by the configuration. Two functions use fuel:
-- `resolve_scopes`, for which one unit for each seed and for each link of the database is enough, and
-- `split_message`, for which one unit for each byte is. Every other loop is over a list, a trie or a
-- filter.
--
-- Not modelled: the redb stores, the network channels (but for webhooks) and transports,
-- request/reply, the builder, the queries that inspect the sessions of the agent runtime, the text of
-- database queries, and the rest of the kernel, the daemon and the plugins, which is mostly I/O.
pub mod Base
pub mod Error
pub mod Scope
pub mod Guardrails
pub mod Telegram
pub mod Routing
pub mod Webhook
pub mod Kernel
pub mod Agent
pub mod Subject
pub mod Filter
pub mod Channel
pub mod Index
pub mod Store
pub mod Backoff
pub mod Dispatch
pub mod Examples
