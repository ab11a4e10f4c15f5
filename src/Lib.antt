-- ===== src/Lib.antt =====
-- Verification of the core of Baran, a runtime for agents on an event bus: which agents a node knows,
-- where an event goes, and how a workflow proceeds from step to step.
--
-- The parts, and the files that model them:
--   * Kv: what core/registry and core/workflow use of a JetStream key-value bucket, as a record of
--     operations (`KeyValue`) with the documented laws (`IsKeyValue`), and of encoding/json
--     (`Codec`, `IsCodec`). Kv/Memory is a bucket in memory that meets the laws. Kv/Upsert is the
--     create-or-update of `Register` in core/registry/kv.go.
--   * Taxonomy: core/taxonomy. Taxonomy/Data is the table of catalog_data.go, Taxonomy the
--     standard catalog of catalog.go and validator.go, Taxonomy/Naming what names it accepts.
--   * Registry: core/registry. Store has the methods of `KVRegistry` (kv.go) as actions on its two
--     buckets, Lifecycle the counting of missed heartbeats on one registration, Find and Glob the
--     search for a capability. The registry meets the taxonomy through the record `Catalog`.
--     Registry/Aliases is `KVAliasRegistry` of alias.go: the names of one capability.
--   * Eventbus: the event of core/eventbus/eventbus.go.
--   * Router: core/router. Strategy is `ResolveStrategy`, Streams the stream registry and the
--     matching of subjects, Dispatch the methods of `DefaultRouter`; what is sent is recorded in
--     the order of the calls.
--   * Workflow: core/workflow. World is the state of a node's engine: the bucket of workflow states
--     (state.go), the timers (timeout.go), the tracked streams (stream_manager.go), the pending
--     decisions, conflict groups and waiting channels (coordinator.go), and the events that went
--     out. Coordinator, Engine and Handler have the functions of the files of those names, and call
--     each other as these do. Definition is the check of a workflow definition.
--   * Health: core/health/monitor.go, the pings of a node to the agents of its registry.
--   * Federation: Nodes is `KVNodeRegistry` of core/federation/node_registry.go, Monitor the monitor
--     of nodes in node_monitor.go and the handlers of gateway.go for nodes that register and leave,
--     Relaying the relay of events (relay.go) with the way that results take back (gateway.go), Sync
--     the agents and aliases that nodes tell each other (capability_sync.go, alias_sync.go). Where a
--     theorem is about two nodes, the one's message is what the other's handler takes.
--   * Sdk: the library of agents, sdk. Idempotency is the cache of idempotency.go, Payloads the check
--     of validate.go, Agent an agent with its tasks (agent.go, step.go), and Sdk/Agent/Lifecycle
--     `Start`, `Stop` and the relation of an agent's steps.
--   * Discovery: the answers to queries for agents and the announcements of capabilities, with their
--     lookups in the registry and the aliases (core/discovery).
--   * A2a: the `TaskManager` of a2a/task_manager.go, whose tasks are workflows of the engine's store.
--   * Tests: the theorems at concrete inputs.
--
-- A function of the source has its name here in lower case with underscores. A method that changes
-- state and may fail is an action `Exec S A`, which returns a result and the state after it, also
-- when it fails (Base/Errors). Go strings are lists of bytes (Base/Text), maps are association
-- lists (Base/Maps), an int32 is its bit pattern and a uint32 a number modulo 2 ^ 32 (Base/Words).
-- Every loop is structural recursion over the list that it walks, or counts down from a bound that
-- the source sets (five levels of aliases, five attempts to record a pong), so no fuel is needed.
--
-- Parameters stand for what lives elsewhere: the bucket, the codec, protobuf's marshalling, UUIDs,
-- the clock, and whether the bus, the router and the stream manager take a call. Times and UUIDs
-- are values that these give. Error messages are not modelled, only which error is returned.
--
-- Not modelled: interleavings of goroutines inside one handler (each handler, timer and waiting
-- goroutine runs as one step; the order of the steps is free). The pongs of core/health are an
-- exception: what other writers do between its reads and writes is an argument. Also not modelled:
-- contexts and their cancellation (a task of the SDK keeps whether it was started with a context to
-- publish under), the tickers of the monitors, `Query` of the taxonomy, simulation, the sidecar,
-- the HTTP and JSON of a2a with its skills and cards, and the start-up and network code.
pub mod Base
pub mod Kv
pub mod Taxonomy
pub mod Registry
pub mod Eventbus
pub mod Router
pub mod Workflow
pub mod Health
pub mod Federation
pub mod Discovery
pub mod A2a
pub mod Sdk
pub mod Tests
