-- ===== src/Lib.antt =====
-- Ferrum Atlas: the verification library of the repository's Rust crates.
--
-- The program indexes a Rust code base into a store, runs the indexing as jobs of a scheduler, and
-- answers queries and analyses over the stored snapshots.
--
-- Prelude and its children hold what the modules share: lists, tests, equality, results, and
-- strings. A string is the list of its bytes; an integer is a natural number, with its saturation
-- or its bound written out where the code has one.
--
-- Model holds the types of crates/model that the other parts use (crates/model/src/lib.rs,
-- jobs.rs, compiler.rs, compiler_import.rs, observations.rs).
--
-- Scheduler is crates/scheduler/src/lib.rs. Config is `SchedulerConfig`; Request
-- `validate_request`; State the memory behind the mutex with the journal and the fences on disk,
-- `persist` and `write_fence`; Events `event`; Submit `submit`; Cancel `get`, `cancel`, `update`,
-- `cancelled` and `publication_guard`; Worker `next_job` and the loop of `execute`; Recover
-- `Scheduler::start`. An operation is a function of the state, to a result and the state it
-- leaves. What the machine does is a parameter of each call (`Io`): the clock, the lock of the
-- publication fence, how far each write came, the random bytes. System is the worker beside its
-- callers: one step per critical section of the mutex, so that a round of the loop of `execute`
-- that records a new stage is two steps; a run is a list of steps, so the theorems about `run`
-- hold for every interleaving and every pattern of failures. A panic while the mutex is held is
-- the field `poisoned`. The proofs are in Rules and Changes (what an operation can do to the
-- jobs), Safety, Serial, Bounds, Traces, Eviction, Choice, Outcomes, Restart and Atomicity.
--
-- Analysis is crates/analysis. Envelope is the envelope and the control of lib.rs: the
-- cancellation flag and the deadline answer by the number of the reading, so the theorems hold for
-- every moment at which an analysis is stopped. Dataflow is dataflow.rs: Facts has the limits, the
-- points, `Value` and `State` with `define`, `transfer` and `facts`; Run the state monad with the
-- early returns, and `join`; Input the validation; Solve the worklist; Emit the output; Report
-- `reaching_definitions`. Maps and sets are lists in the order of their keys (Prelude.Order).
-- Executions says what an execution of a body is, without any abstract state, and Cover, Join,
-- Advances, Soundness, Fixpoint, Uses and Complete relate the analysis to it; Ends, Early and
-- Emits say how the parts of the analysis can end, Budget and Reports what holds of the reports
-- under the response budget. The worklist recurses on what is left of `max_iterations`, as the
-- source counts it, so there is no other fuel. What `byte_budget` answers is a parameter (Sizes),
-- since it counts the bytes of the JSON form.
--
-- Query.Cursor is crates/query/src/cursor.rs: RoundTrip has the hexadecimal text both ways, Seal
-- what an accepted cursor vouches for. The serialiser and HMAC-SHA-256 are parameters (Codec).
--
-- Analysis.Trace is crates/analysis/src/trace.rs: Window has `selected_stream`, `decimal`,
-- `window` and `anchors`; Compare the loop over the events and `interval`; Anchors the anchors of
-- two windows, Report `compare_trace_windows`. Selection, Prefix and Interval hold the proofs. The
-- loop over the events recurses on the two slices; a printed number has 39 digits at most, as a
-- u128 has.
--
-- Analysis.Complexity is crates/analysis/src/compiler_complexity.rs: Report has the limits, the
-- report and `finish`; Shape `imaginary` and `validate_graph_term`; Measure the loops of
-- `analyze_compiler_complexity`, with each early return as a value (Leave). What petgraph's `Dfs`
-- visits is a parameter, of which the theorems assume what it documents (IsDfs in Reach); Search
-- is a search that meets it. Blocks, Read, Links, Reach, Sums and Cyclomatic follow the loops one
-- by one, Ends says what holds of a part however it ends.
--
-- Frontend.Cfg is crates/frontend-ra/src/configuration.rs. Syntax is what the code reads of a
-- syntax tree of ra_ap_syntax, with a number for each node, and Features has the TOML values that
-- it reads; the parsers are parameters. Predicate has `combine`, `predicate`, `meta_status` and
-- `attribute_unavailable`; Files `FileConfigurations`, whose walk takes the events of `preorder`;
-- Features `Configurations::new`. Sound and Keeps compare the three-valued status with the Boolean
-- meaning in a build, Known says when it is decided; Reference computes a status from all
-- ancestors, as `Settings::node_status` does, and Entries and Inherit compare the walk with it;
-- Closure and Requested are about the loop over the pending features, Configured about the errors.
-- The loop over the pending features takes as fuel what can still be pushed, and the loop of `cfg`
-- the number of entries. `Settings::options` is not modelled.
--
-- Analysis.Graph is crates/analysis/src/graph.rs: Prepare has the limits and `prepare`, Path
-- `find_path`. A node index of the graph is written as the id of its definition. What petgraph's
-- `Bfs` visits and which edges leave a node are parameters (GraphLibrary), of which the theorems
-- assume what it documents, for the graph that `prepare` builds (IsGraphLibrary in Walk). Back has
-- the distances and the way back, Walk the search, Selected and Prepared the edges of the graph
-- against the selection, Explored and Found the outcomes. Metrics and Report have `analyze_graph`,
-- with what `kosaraju_scc` finds and the digest of a component as parameters (MetricsLibrary);
-- Distribution is about `distribution`, Counted and Tallied about the counts, Parts and Analyzed
-- about the report. The way back takes `max_depth` as fuel, since no node farther away is visited.
--
-- Bounds and fuel: the eviction loop of `submit` takes the number of jobs as fuel, and each round
-- removes one; the worklist of the dataflow analysis takes what is left of `max_iterations`; a
-- printed number takes 39 digits. The loop over the pending features takes what can still be
-- pushed, that of `cfg` the number of entries, and the way back along a found path `max_depth`.
-- All other loops recurse on their lists. The bounds of the event logs are stated for runs of
-- fewer steps than a u32 has values, since event numbers saturate there.
--
-- Not modelled: the command line, the sandbox and the output parser of the child process of
-- `execute`, which are process I/O; the serialisers, which are parameters where their result
-- matters (the length of a request, a parsed journal, the bytes of a cursor, whether a report fits
-- its budget). Of the other crates: crates/store, crates/ingest, crates/server, crates/cli and
-- adapters/rustc are files, databases, processes and calls of compiler libraries; of
-- crates/frontend-ra only configuration.rs is modelled and of crates/query only cursor.rs; of
-- crates/analysis, state_machine.rs and maintainability.rs are not; crates/evidence is not.
pub mod Analysis
pub mod Frontend
pub mod Model
pub mod Prelude
pub mod Query
pub mod Scheduler
