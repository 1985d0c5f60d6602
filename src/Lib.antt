-- ===== src/Lib.antt =====
-- A verification library for the workspace vsm-agent-kernel, a kernel for agent organizations after the
-- viable system model. An organizational genome is a tree of nodes: a node with children is a
-- metasystem that delegates, a leaf executes tasks. A controller routes tasks to direct children, a worker
-- executes them behind a gate, mutations of the genome are patches that run as trials, and a ledger
-- keeps events, traces, snapshots and the records of trials.
--
-- The files, by crate:
--   Base: Boolean tests, keys, lists, the ordered map (`BTreeMap`) and its `entry` (Entries), `Result`,
--     integers, decimal numbers, characters and bytes of texts, the stable sort, and the interfaces of
--     `f64` (Float) and of `serde_json::Value` (Json).
--   Core (crates/vsm-core): Id, Capability, Channel (and ChannelKey, the equality of channel types), Node,
--     Task, Trace, Suggestion and Transport hold the data with its constructors, and Envelope, Signals and
--     Orders that of message.rs.
--     Genome models genome.rs: `add_child`, `remove_subtree`, `collect_subtree`, `subtree_ids`,
--     `ancestor_ids` under their names, `get_node_mut` as `update_node`. Its child modules state what a
--     tree is (Tree), follow child pointers (Subtree, Termination) and parent pointers (Ancestors), and are
--     about what the operations keep (Added, Removed, Rewritten, Within, WellFormed). Patch models patch.rs:
--     `OrganizationalGenomePatch::apply` is `apply`, with `apply_all` for a batch.
--     Fitness models fitness.rs: Score is `score_trace`, Direct and Attributed the two summaries, and
--     Attributed/Tallies is about the counts that the second one ends with.
--   Ledger (crates/vsm-ledger): Snapshot, Trial and Archive model state.rs, Event models event.rs
--     (EventKind is the equality of event kinds; Keys, under Snapshot and EventKind, is about the storage
--     keys), and Memory models the `InMemoryLedger` of memory.rs
--     with the methods that the trait of ledger.rs provides.
--   Worker (crates/vsm-worker): Gate models `ensure_executable_leaf` of harness.rs, Harness the rest of it
--     (`WorkerHarness` with `execute_task` and its loops; Harness/Metadata what it copies between a task, its
--     trace and its result; Results, Executed and Served are about it). Model and Prompt are model.rs and
--     prompt.rs.
--   Controller (crates/vsm-controller): Router models router.rs. Trial models a part of trial.rs:
--     Exposure the share of the traffic that a trial gets, with the hash of a task (FNV-1a on 64 bits,
--     over the UTF-8 that Base/Bytes gives), Manager the `TrialManager` with its limits and its routes,
--     Lifecycle how a queued trial becomes the active one and comes back after a restart, Operations how a
--     trial starts, records its traces and is promoted, pruned or frozen (Phases is its specification with
--     the refinement, Accounts is about what is counted). Resource models the resource bargaining of
--     runtime.rs: Pressure the summaries of recent events, Epoch the budget of an epoch, Allocation
--     `allocate_resource_bargain` (Policy, Statuses and Budgets are about its decisions). Evolution models
--     the planning of a generation of evolution.rs (Parents, the three operators in Offspring, Retirement and
--     Recombination, and Plan; Held, Bounded, Recombined and Planned are about the plan).
--   Runtime (crates/vsm-runtime): Subscriptions models `matches_subscription` of
--     in_memory_transport.rs, Trial models `MutationTrial::from_suggestion` and `TrialLedger` of trial.rs,
--     and Trial/Evaluation how a trial is judged there.
-- The router and the worker share the genome's nodes: Controller/Router/Gate relates the two tests of
-- capabilities. Trials apply patches, and Runtime/Trial/Candidate rests on what Core/Patch/Shape says.
--
-- Conventions. Code that writes through `&mut` takes the state and returns it also with an error, since Rust
-- keeps what was written. `Uuid::new_v4` is a stream of strings, with the number of ids drawn in the state,
-- or an id is an argument; no theorem assumes that the ids differ unless it says so. `Utc::now()` is an
-- argument, a time is the number of its ticks. `f64` is a type `F` with the operations of `Float`, and
-- `serde_json::Value` a type with the accessors of `Json`, and no law of either is assumed. A serialization,
-- the text of a float, and the `{:?}` of vectors are arguments. The counters of summaries, which are `u64` in
-- the source, are numbers without a bound; `saturating_add` stops where it does in the source. The ids of a
-- map are compared by an equality test with its law (`Key`). The tables of the ledger are behind one
-- mutex each that a method holds for its whole work, so that a method is one step; `set_champion_genome`
-- is two steps. What surrounds a worker (its ledger, its transport, its model) is a record `Services` of
-- functions on a state `S`, and a stream of packets is the list of what arrives.
--
-- Fuel. `collect_subtree` recurses over child pointers and `ancestor_ids` loops over parent pointers,
-- and neither terminates on every genome. In the model `none` stands for a recursion deeper than the fuel. On
-- a tree the height is enough for the loop and one more than it for the recursion, so that any fuel from there
-- on gives the same result. A patch needs one more than the height and the number of nodes that it adds. A
-- worker finds the ancestors of its node with the same fuel, and the evolution tries the patches of two
-- trials, one after the other, on a copy of the champion; there `none` also stands for a division by zero.
--
-- Not modelled: the SQLite ledger, the AMQP transport and the Codex provider (calls of other programs), the
-- adapter of trace sinks; of the controller, the handlers of messages in its runtime other than the
-- decision on a bargain, the selection and the replay of candidates, the tags that a routed task gets, its
-- mapper and its audit; the start of a system.
pub mod Base
pub mod Core
pub mod Ledger
pub mod Worker
pub mod Controller
pub mod Runtime
