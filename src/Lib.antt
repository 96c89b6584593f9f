-- ===== src/Lib.antt =====
-- ChaosKVS, a simulator of an in-memory key-value store under injected faults, and what is proved of it.
--
-- A cluster (internal/cluster) holds nodes (internal/node), each a small store with a status and a delay. A client
-- (internal/client) sends requests to them through a pool of workers (internal/worker) and records latencies
-- (internal/metrics); a monkey (internal/chaos) stops, suspends and delays nodes and later resumes those that it
-- suspended; a recovery manager (internal/recovery) restarts and resumes nodes after a delay. Monkey and manager
-- tell of it on an event bus (internal/events). An engine (internal/scenario) sets all of these up, lets them run for a
-- time, collects the results and tears down, by a configuration that is a preset, a file (internal/config) or flags
-- (cmd/chaos-kvs). A server (internal/api) runs engines one at a time and reports on them.
--
-- The files:
--   Base: shared vocabulary, over the native numbers: tests, lists, integers, maps as association lists, orders that
--     the runtime chooses, counting, decimal text.
--   Node: node.go, a method as a function from the node to the node and its error; Node/Lifecycle has the edges of the
--     life cycle, Node/Store what a read gives after a history.
--   Heap: the nodes that all parts share by pointer, and loops of goroutines that each call one node.
--   Cluster: cluster.go, with AddNode, RemoveNode, StartAll and the rest over a heap; Membership, Batch and Creation.
--   Events, Events/Bus: events.go and bus.go, with channels shared by pointer; Safety and Delivery.
--   Recovery: recovery.go, the manager; Recovery/Handlers has one function to a handler, Checks checkAndRecover over all
--     nodes, History the calls of a manager; then Handling, Fates, Rounds, Revival, Counting, and Faults, for what its
--     statistics get wrong.
--   Chaos: chaos.go, the monkey; Chaos/Injection the attacks, Suspensions the resumptions, History the calls of a
--     monkey; then Targets, Hits, Attacks, Resumption, Panics.
--   Metrics: metrics.go; Records and Percentile, Bags for the samples but for their order, Interleaving for records that
--     come in any order.
--   Worker: worker.go, the pool as a step relation over its channel, workers and callers; Queue with Closing,
--     and Submission.
--   Client: client.go, the job, one round of the generating loop, and the runs; Requests; Client/Load the loop with the
--     pool and the heap as a step relation, with Pooling, Holding, Generating, Accounts and Limit.
--   Scenario: the configuration of scenario.go, and presets.go, with Presets and Presets/Runnable; Scenario/Engine the
--     engine, with Setup, Results, Teardown and Views, Scenario/Engine/Activity what the goroutines of its parts do while
--     it runs, with Safety, and Scenario/Engine/Running its Run, with Completion; Scenario/Report.
--   Config: config.go, from a decoded file to a scenario; Reading and Outcome.
--   Logger: logger.go; History.
--   Api: internal/api/server.go: the state and the handlers of status, nodes, presets, start and stop; Reports the metrics
--     and the broadcasts, Sockets the connections, with Pairs and Sessions, Background the run of a scenario that was
--     asked for, Routes, with Answers, the whole server from a request to its answer, History.
--   Main: buildScenarioConfig of main.go, with Building; Main/Program main itself, with Completion and Presets.
--   Node/Interface, Cluster/Interface, Metrics/Interface: the interfaces Store, Manager and Collector as records of
--     operations, with their laws.
--   Examples: the theorems at concrete inputs.
--
-- Conventions. What the runtime, the clock, math/rand and other goroutines decide is an argument: an order is a
-- permutation (`OrderOf`), a pause takes what others make of the state meanwhile (`Meanwhile`, `Env`, `Chance`), a
-- method under its lock is one step. An error is a value of a data type and a panic is `none`. A time is in nanoseconds,
-- and a `time.Duration` and an `int` are integers (`ℤ`), which here are compared, moved by one and, in a report, divided; the `uint64`
-- counters wrap at 2^64 (`u64`). `float64` is an interface (`Metrics.Float`), and so are time.ParseDuration,
-- strings.ToLower and the YAML and JSON decoders, as functions. Loops run over lists or counts that shrink, so that there
-- is no fuel; the loops that end only by a cancellation are histories of calls, of any length.
--
-- Not modelled: log lines but for those of main; the parser of flags, the usage text and the signals, which cancel the
-- context; what the libraries for HTTP, WebSocket, JSON and YAML do; and the field `ctx` of the cluster, which is never
-- read. The doc.go files hold no code.
pub mod Base
pub mod Events
pub mod Metrics
pub mod Heap
pub mod Node
pub mod Cluster
pub mod Chaos
pub mod Recovery
pub mod Worker
pub mod Client
pub mod Scenario
pub mod Config
pub mod Main
pub mod Api
pub mod Examples
pub mod Logger
