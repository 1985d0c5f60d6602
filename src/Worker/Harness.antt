-- ===== src/Worker/Harness.antt =====
-- `WorkerHarness` (crates/vsm-worker/src/harness.rs): a worker takes task packets from its subscription, asks its
-- model to carry them out, records a trace of each and publishes the result. `F` stands for `f64`, `V` for
-- `serde_json::Value`, and `S` for the state of what surrounds the worker.
pub mod Metadata
pub mod Results
pub mod Executed
pub mod Served
use Prim.Native.String.{◌++◌ as append_text}
use vsm_agent_kernel.Base.{
  ℕ, suc, String, Bool, true, false, not, Option, none, some, List, [], ◌∷◌, ◌++◌, length,
  string_key, ◌==◌, ltb, if◌then◌else◌,
}
use vsm_agent_kernel.Base.Float.{Float}
use vsm_agent_kernel.Base.Json.{Json, or_else}
use vsm_agent_kernel.Base.Results.{Result, ok, err, map_err}
use vsm_agent_kernel.Base.TreeMap.{insert}
use vsm_agent_kernel.Core.Capability.{CapabilitySet}
use vsm_agent_kernel.Core.Channel.{
  VsmChannelType, resource_bargaining, command, system2_coordination, management_to_operation,
  operation_to_operation, audit,
}
use vsm_agent_kernel.Core.Envelope
use vsm_agent_kernel.Core.Envelope.{MessageEnvelope, as_str, envelope_for_task_result, with_route}
use vsm_agent_kernel.Core.Genome.{OrganizationalGenome, GenomeError, get_node, ancestor_ids}
use vsm_agent_kernel.Core.Id.{NodeId, GenomeId}
use vsm_agent_kernel.Core.Node.{ViableNode}
use vsm_agent_kernel.Core.Task
use vsm_agent_kernel.Core.Task.{
  TaskPacket, TaskResult, TaskOutcomeStatus, inline_artifact, completed_result, failed_result,
}
use vsm_agent_kernel.Core.Trace.{TaskTrace, started}
use vsm_agent_kernel.Core.Transport.{Subscription, TransportError}
use vsm_agent_kernel.Controller.Resource.Allocation.{genome_error_text}
use vsm_agent_kernel.Worker.Error
use vsm_agent_kernel.Worker.Error.{WorkerError, ModelProviderError, TraceSinkError}
use vsm_agent_kernel.Worker.Gate.{ensure_executable_leaf}
use vsm_agent_kernel.Worker.Harness.Metadata.{
  harvest_provider_artifacts, copy_trial_metadata, copy_decomposition_metadata,
  copy_channel_metadata, copy_replay_metadata,
}
use vsm_agent_kernel.Worker.Model.{ModelRequest, ModelResponse, ModelUsage}
use vsm_agent_kernel.Worker.Prompt.{build}

pub record WorkerHarnessConfig : Type 0 where
  pub queue_name : Option String
  pub durable_subscription : Bool
  pub subscription_channels : List VsmChannelType
  pub publish_results : Bool

abbrev pub default_config : WorkerHarnessConfig
default_config = record {
  queue_name = none;
  durable_subscription = false;
  subscription_channels =
      resource_bargaining ∷ command ∷ system2_coordination ∷ management_to_operation
      ∷ operation_to_operation ∷ audit ∷ [];
  publish_results = true;
}

-- The `Display` of an error, as the attributes of `thiserror` give it.
abbrev pub transport_error_text : TransportError → String
transport_error_text (TransportError.serialization e) = append_text "serialization error: " e
transport_error_text (TransportError.unavailable e) = append_text "transport unavailable: " e
transport_error_text (TransportError.operation e) = append_text "transport operation failed: " e

abbrev pub model_error_text : ModelProviderError → String
model_error_text (Error.missing_config e) = append_text "missing configuration: " e
model_error_text (Error.request e) = append_text "provider request failed: " e
model_error_text (Error.invalid_response e) = append_text "provider response was invalid: " e

abbrev pub worker_error_text : WorkerError → String
worker_error_text (Error.transport e) = transport_error_text e
worker_error_text (Error.model e) = model_error_text e
worker_error_text (Error.trace_sink (Error.operation e)) = append_text "trace sink failed: " e
worker_error_text (Error.serialization e) = e
worker_error_text (Error.genome e) = genome_error_text e
worker_error_text (Error.not_executable_leaf id) =
    append_text "node is not executable as a leaf: " id
worker_error_text (Error.capability_denied id capability) =
    append_text "node lacks required capability: " (append_text id (append_text ": " capability))

abbrev pub debug_status : TaskOutcomeStatus → String
debug_status Task.completed = "Completed"
debug_status Task.failed = "Failed"
debug_status Task.rejected = "Rejected"
debug_status Task.needs_human = "NeedsHuman"
debug_status Task.noop = "Noop"

-- What the worker is given: the shared genome, the clock, the ids, the model provider, the trace sink, the
-- transport, and the serialization. A stream is the list of what arrives until it ends.
pub record Services (F V S : Type 0) : Type 0 where
  pub read_genome : S → OrganizationalGenome
  pub now : S → ℕ × S
  pub draw_id : S → String × S
  pub elapsed_ms : ℕ → ℕ → ℕ
  pub complete : ModelRequest → S → Result ModelProviderError (ModelResponse V) × S
  pub record_trace : TaskTrace F → S → Result TraceSinkError (Unit {0}) × S
  pub publish : MessageEnvelope V → S → Result TransportError (Unit {0}) × S
  pub subscribe :
      Subscription
      → S
      → Result TransportError (List (Result TransportError (MessageEnvelope V))) × S
  pub payload_as : V → Result String TaskPacket
  pub to_value : TaskResult → Result String V
  pub render : V → String
  pub debug_texts : List String → String
  pub debug_capabilities : CapabilitySet → String
  pub pretty : TaskPacket → Option String

pub record WorkerHarness : Type 0 where
  pub node_id : NodeId
  pub config : WorkerHarnessConfig

-- A step of the worker; `none` if the fuel of the walk to the root does not reach.
abbrev pub M : Type 0 → Type 0 → Type 0
M S A = S → Option (Result WorkerError A × S)

infixl 5 ◌>>=◌ ◌>>◌
abbrev pub ◌>>=◌ : {S A B : Type 0} → M S A → (A → M S B) → M S B
◌>>=◌ m next s = elim (m s) [
  | none ↦ none
  | some (err e, t) ↦ some (err e, t)
  | some (ok a, t) ↦ next a t
]

abbrev pub ◌>>◌ : {S A B : Type 0} → M S A → M S B → M S B
m >> next = m >>= λ _. next

abbrev pub pure : {S A : Type 0} → A → M S A
pure a s = some (ok a, s)

abbrev pub lift : {S A : Type 0} → (S → A × S) → M S A
lift step s = some (ok (step s).0, (step s).1)

-- The `?` on the outcome of a service.
abbrev pub question : {S E A : Type 0} → (E → WorkerError) → (S → Result E A × S) → M S A
question from step s = some (map_err from (step s).0, (step s).1)

abbrev pub question_lookup : {S A : Type 0} → Option (Result GenomeError A) → M S A
question_lookup none s = none
question_lookup (some r) s = some (map_err Error.genome r, s)

module _ {F V S : Type 0} ⦃f : Float F⦄ ⦃j : Json V⦄ (services : Services F V S)
    (harness : WorkerHarness) where
  unfoldable pub completed_with :
      ViableNode → TaskPacket → ModelResponse V → TaskResult × Option ModelUsage
  unfolding harvest_provider_artifacts insert
  completed_with node task response =
      let plain = completed_result task.id harness.node_id response.output_text in
      let shown : TaskResult = record plain {
        artifacts = plain.artifacts ++ inline_artifact "model_output" response.output_text ∷ [];
      } in
      let harvested = harvest_provider_artifacts services.render response.raw shown in
      (
        record harvested {
          metadata =
              insert "model" node.model.model
                (insert "provider" node.model.provider harvested.metadata);
        },
        response.usage,
      )

  -- The `execution` block, whose errors do not leave it: the gate, then the model.
  unfoldable pub answered :
      ViableNode
      → TaskPacket
      → Result ModelProviderError (ModelResponse V) × S
      → Result WorkerError (TaskResult × Option ModelUsage) × S
  unfolding completed_with
  answered node task (err e, t) = (err (Error.model e), t)
  answered node task (ok response, t) = (ok (completed_with node task response), t)

  unfoldable pub gated :
      ViableNode
      → TaskPacket
      → Result WorkerError (Unit {0})
      → S
      → Result WorkerError (TaskResult × Option ModelUsage) × S
  unfolding answered build
  gated node task (err e) s = (err e, s)
  gated node task (ok _) s = answered node task (
      services.complete
        (build services.debug_texts services.debug_capabilities services.pretty node task) s)

  unfoldable pub execution :
      ViableNode → TaskPacket → S → Result WorkerError (TaskResult × Option ModelUsage) × S
  unfolding gated ensure_executable_leaf
  execution node task = gated node task (ensure_executable_leaf node task)

  -- The `match` on the execution: the result, the trace and the usage.
  unfoldable pub conclude :
      TaskPacket
      → TaskTrace F
      → Result WorkerError (TaskResult × Option ModelUsage)
      → TaskResult × TaskTrace F × Option ModelUsage
  conclude task trace (ok (result, usage)) = (
    result,
    record trace {
      outcome_score = f.literal 10 1;
      merged = none;
      review_passed = none;
      tests_passed = none;
    },
    usage,
  )
  conclude task trace (err e) = (
    failed_result task.id harness.node_id "worker failed to execute task" (worker_error_text e),
    record trace { outcome_score = f.negate (f.literal 10 1); merged = some false },
    none,
  )

  abbrev pub use_tokens : Option ModelUsage → TaskTrace F → TaskTrace F
  use_tokens none trace = trace
  use_tokens (some usage) trace = record trace {
    input_tokens = usage.input_tokens;
    output_tokens = usage.output_tokens;
  }

  -- The result and the trace, from the concluded ones on.
  unfoldable pub finish :
      TaskPacket
      → MessageEnvelope V
      → ℕ
      → ℕ
      → TaskResult × TaskTrace F × Option ModelUsage
      → TaskResult × TaskTrace F
  unfolding copy_trial_metadata copy_decomposition_metadata copy_channel_metadata
      copy_replay_metadata insert
  finish task incoming started_at completed_at (result, trace, usage) =
      let (told, traced) =
        copy_channel_metadata task incoming
          (copy_decomposition_metadata task (copy_trial_metadata task (result, trace))) in
      let used = use_tokens usage (copy_replay_metadata task traced) in
      (
        told,
        record used {
          completed_at = some completed_at;
          latency_ms = services.elapsed_ms started_at completed_at;
          files_touched = told.files_touched;
          tests_run = told.tests_run;
          metadata = insert "status" (debug_status told.status) used.metadata;
        },
      )

  abbrev pub address :
      TaskResult → MessageEnvelope V → Option NodeId → MessageEnvelope V → MessageEnvelope V
  address result incoming parent_id fresh =
      let routed =
        with_route fresh (some harness.node_id) (or_else incoming.source_node_id parent_id) in
      record routed {
        correlation_id = or_else incoming.correlation_id (some incoming.id);
        causation_id = some incoming.id;
        trace = incoming.trace ++ harness.node_id ∷ [];
      }

  unfoldable pub publish_result : TaskResult → MessageEnvelope V → Option NodeId → M S (Unit {0})
  publish_result result incoming parent_id = do
    id ← lift services.draw_id
    time ← lift services.now
    fresh ←
        question Error.serialization
          (λ s. (envelope_for_task_result id time (services.to_value result), s))
    question Error.transport (services.publish (address result incoming parent_id fresh))

  abbrev pub publish_if : Bool → TaskResult → MessageEnvelope V → Option NodeId → M S (Unit {0})
  publish_if true result incoming parent_id = publish_result result incoming parent_id
  publish_if false result incoming parent_id = pure tt

  -- The end of `execute_task`: the trace is recorded and the result published.
  unfoldable pub deliver :
      MessageEnvelope V → Option NodeId → TaskResult × TaskTrace F → M S TaskResult
  unfolding publish_result
  deliver incoming parent_id (result, trace) = do
    question Error.trace_sink (services.record_trace trace)
    publish_if harness.config.publish_results result incoming parent_id
    pure result

  -- `execute_task` past the lookups in the genome.
  unfoldable pub execute_at :
      TaskPacket → MessageEnvelope V → GenomeId → ViableNode → List NodeId → M S TaskResult
  unfolding execution conclude finish deliver
  execute_at task incoming genome_id node ancestors = do
    trace_id ← lift services.draw_id
    trace_time ← lift services.now
    started_at ← lift services.now
    outcome ← lift (execution node task)
    completed_at ← lift services.now
    let fresh = started (f.literal 0 1) trace_id trace_time task.id genome_id harness.node_id
    let concluded = conclude task (record fresh { responsible_ancestor_ids = ancestors }) outcome
    deliver incoming node.parent_id (finish task incoming started_at completed_at concluded)

  unfoldable pub execute_task : ℕ → TaskPacket → MessageEnvelope V → M S TaskResult
  unfolding execute_at get_node ancestor_ids
  execute_task fuel task incoming s =
      let genome = services.read_genome s in
      (question_lookup (some (get_node genome harness.node_id)) >>= λ node.
      question_lookup (ancestor_ids fuel genome harness.node_id) >>= λ ancestors.
      execute_at task incoming genome.id node ancestors)
        s

  abbrev pub elsewhere : Option NodeId → Bool
  elsewhere none = false
  elsewhere (some assigned_to) = not (assigned_to == harness.node_id)

  -- The part behind the parsed payload.
  unfoldable pub handle_task : ℕ → MessageEnvelope V → TaskPacket → M S (Option TaskResult)
  unfolding execute_task
  handle_task fuel envelope task =
      if elsewhere task.assigned_to
      then pure none
      else do result ← execute_task fuel task envelope; pure (some result)

  unfoldable pub handle_envelope : ℕ → MessageEnvelope V → M S (Option TaskResult)
  unfolding handle_task
  handle_envelope fuel envelope =
      if not (envelope.payload_type == as_str Envelope.task_packet) then pure none else do
        task ← question Error.serialization (λ s. (services.payload_as envelope.payload, s))
        handle_task fuel envelope task

  abbrev pub push_some : List TaskResult → Option TaskResult → List TaskResult
  push_some handled none = handled
  push_some handled (some result) = handled ++ result ∷ []

  -- The loop of `run_until_tasks`, over what the stream still holds.
  unfoldable pub handle_until :
      ℕ
      → ℕ
      → List (Result TransportError (MessageEnvelope V))
      → List TaskResult
      → M S (List TaskResult)
  unfolding handle_envelope
  handle_until fuel max_tasks [] handled = pure handled
  handle_until fuel max_tasks (next ∷ stream) handled =
      let rest = λ (more : List TaskResult). handle_until fuel max_tasks stream more in
      if not (ltb (length handled) max_tasks) then pure handled else do
        envelope ← question Error.transport (λ s. (next, s))
        result ← handle_envelope fuel envelope
        rest (push_some handled result)

  unfoldable pub subscription : Subscription
  subscription = record {
    channel_types = harness.config.subscription_channels;
    target_node_id = some harness.node_id;
    queue_name = harness.config.queue_name;
    durable = harness.config.durable_subscription;
  }

  unfoldable pub run_until_tasks : ℕ → ℕ → M S (List TaskResult)
  unfolding handle_until subscription
  run_until_tasks fuel max_tasks = do
    stream ← question Error.transport (services.subscribe subscription)
    handle_until fuel max_tasks stream []

  unfoldable pub handle_all : ℕ → List (Result TransportError (MessageEnvelope V)) → M S (Unit {0})
  unfolding handle_envelope
  handle_all fuel [] = pure tt
  handle_all fuel (next ∷ stream) = do
    envelope ← question Error.transport (λ s. (next, s))
    handle_envelope fuel envelope
    handle_all fuel stream

  -- It returns if the stream ends.
  unfoldable pub run_forever : ℕ → M S (Unit {0})
  unfolding handle_all subscription
  run_forever fuel = do
    stream ← question Error.transport (services.subscribe subscription)
    handle_all fuel stream
