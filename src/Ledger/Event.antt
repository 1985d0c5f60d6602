-- ===== src/Ledger/Event.antt =====
-- crates/vsm-ledger/src/event.rs: the events of the ledger, and the filters of its reads. `V` stands for
-- `serde_json::Value`; the serialization is an argument, with its error as a string.
use Prim.Native.String.{◌++◌ as append_text}
use vsm_agent_kernel.Base.{ℕ, String, Option, none, some, List, [], string_key}
use vsm_agent_kernel.Base.Results.{Result, ok, err, ◌>>=◌}
use vsm_agent_kernel.Base.TreeMap.{TreeMap, insert}
use vsm_agent_kernel.Core.Id.{NodeId, GenomeId, TaskId, DirectiveId, SuggestionId}
use vsm_agent_kernel.Core.Channel.{
  VsmChannelType, resource_bargaining, command, system2_coordination, audit, three_four_homeostat,
  management_to_operation, operation_to_operation, operation_to_environment,
  future_probe_to_environment, environment_to_environment, algedonic,
}
use vsm_agent_kernel.Core.Envelope.{MessageEnvelope}
use vsm_agent_kernel.Core.Trace.{TaskTrace}

pub data LedgerEventKind : Type 0 where
  controller_started : LedgerEventKind
  worker_started : LedgerEventKind
  message_received : LedgerEventKind
  message_published : LedgerEventKind
  directive_accepted : LedgerEventKind
  task_mapped : LedgerEventKind
  task_routed : LedgerEventKind
  task_result_received : LedgerEventKind
  trace_written : LedgerEventKind
  algedonic_signal_received : LedgerEventKind
  audit_started : LedgerEventKind
  audit_completed : LedgerEventKind
  gene_suggestion_created : LedgerEventKind
  genome_patch_applied : LedgerEventKind
  trial_queued : LedgerEventKind
  trial_started : LedgerEventKind
  trial_task_routed : LedgerEventKind
  trial_trace_recorded : LedgerEventKind
  trial_decision_recorded : LedgerEventKind
  trial_promoted : LedgerEventKind
  trial_pruned : LedgerEventKind
  trial_rejected : LedgerEventKind
  trial_frozen : LedgerEventKind
  evolution_generation_created : LedgerEventKind
  other : String → LedgerEventKind

pub record LedgerEvent (V : Type 0) : Type 0 where
  pub id : String
  pub kind : LedgerEventKind
  pub created_at : ℕ
  pub genome_id : Option GenomeId
  pub node_id : Option NodeId
  pub task_id : Option TaskId
  pub directive_id : Option DirectiveId
  pub suggestion_id : Option SuggestionId
  pub correlation_id : Option String
  pub payload : V
  pub metadata : TreeMap String String

pub record EventFilter : Type 0 where
  pub kinds : List LedgerEventKind
  pub node_id : Option NodeId
  pub task_id : Option TaskId
  pub directive_id : Option DirectiveId
  pub correlation_id : Option String
  pub since : Option ℕ
  pub limit : Option ℕ

pub record TraceWindow : Type 0 where
  pub since : Option ℕ
  pub limit : Option ℕ

-- `LedgerEventKind::as_storage_key`.
abbrev pub event_key : LedgerEventKind → String
event_key controller_started = "controller_started"
event_key worker_started = "worker_started"
event_key message_received = "message_received"
event_key message_published = "message_published"
event_key directive_accepted = "directive_accepted"
event_key task_mapped = "task_mapped"
event_key task_routed = "task_routed"
event_key task_result_received = "task_result_received"
event_key trace_written = "trace_written"
event_key algedonic_signal_received = "algedonic_signal_received"
event_key audit_started = "audit_started"
event_key audit_completed = "audit_completed"
event_key gene_suggestion_created = "gene_suggestion_created"
event_key genome_patch_applied = "genome_patch_applied"
event_key trial_queued = "trial_queued"
event_key trial_started = "trial_started"
event_key trial_task_routed = "trial_task_routed"
event_key trial_trace_recorded = "trial_trace_recorded"
event_key trial_decision_recorded = "trial_decision_recorded"
event_key trial_promoted = "trial_promoted"
event_key trial_pruned = "trial_pruned"
event_key trial_rejected = "trial_rejected"
event_key trial_frozen = "trial_frozen"
event_key evolution_generation_created = "evolution_generation_created"
event_key (other value) = append_text "other:" value

-- `LedgerEvent::new`, where `serialized` is the outcome of `serde_json::to_value(payload)`.
abbrev pub new_event :
    {V : Type 0} → String → ℕ → LedgerEventKind → Result String V → Result String (LedgerEvent V)
new_event id now kind (err e) = err e
new_event id now kind (ok payload) = ok (record {
  id = id;
  kind = kind;
  created_at = now;
  genome_id = none;
  node_id = none;
  task_id = none;
  directive_id = none;
  suggestion_id = none;
  correlation_id = none;
  payload = payload;
  metadata = [];
})

-- `{:?}` of a channel type.
abbrev pub debug_channel : VsmChannelType → String
debug_channel resource_bargaining = "ResourceBargaining"
debug_channel command = "Command"
debug_channel system2_coordination = "System2Coordination"
debug_channel audit = "Audit"
debug_channel three_four_homeostat = "ThreeFourHomeostat"
debug_channel management_to_operation = "ManagementToOperation"
debug_channel operation_to_operation = "OperationToOperation"
debug_channel operation_to_environment = "OperationToEnvironment"
debug_channel future_probe_to_environment = "FutureProbeToEnvironment"
debug_channel environment_to_environment = "EnvironmentToEnvironment"
debug_channel algedonic = "Algedonic"

or_else : Option NodeId → Option NodeId → Option NodeId
or_else none o = o
or_else (some a) o = some a

-- `LedgerEvent::for_message`, where `serialized` is `serde_json::to_value(envelope)`.
unfoldable pub for_message :
    {V : Type 0}
    → String
    → ℕ
    → LedgerEventKind
    → MessageEnvelope V
    → Result String V
    → Result String (LedgerEvent V)
unfolding or_else
for_message id now kind envelope serialized = new_event id now kind serialized >>= λ event.
    ok (record event {
      node_id = or_else envelope.target_node_id envelope.source_node_id;
      correlation_id = envelope.correlation_id;
      metadata =
          insert "channel_type" (debug_channel envelope.channel_type)
            (insert "payload_type" envelope.payload_type event.metadata);
    })

-- `LedgerEvent::for_trace`, where `serialized` is `serde_json::to_value(trace)`.
unfoldable pub for_trace :
    {F V : Type 0} → String → ℕ → TaskTrace F → Result String V → Result String (LedgerEvent V)
for_trace id now trace serialized = new_event id now trace_written serialized >>= λ event.
    ok (record event {
      genome_id = some trace.genome_id;
      node_id = some trace.assigned_node_id;
      task_id = some trace.task_id;
      metadata = insert "trace_id" trace.id event.metadata;
    })

abbrev pub with_node : {V : Type 0} → LedgerEvent V → NodeId → LedgerEvent V
with_node event node_id = record event { node_id = some node_id }

abbrev pub with_genome : {V : Type 0} → LedgerEvent V → GenomeId → LedgerEvent V
with_genome event genome_id = record event { genome_id = some genome_id }

abbrev pub with_task : {V : Type 0} → LedgerEvent V → TaskId → LedgerEvent V
with_task event task_id = record event { task_id = some task_id }

abbrev pub with_directive : {V : Type 0} → LedgerEvent V → DirectiveId → LedgerEvent V
with_directive event directive_id = record event { directive_id = some directive_id }

abbrev pub with_correlation : {V : Type 0} → LedgerEvent V → String → LedgerEvent V
with_correlation event correlation_id = record event { correlation_id = some correlation_id }

abbrev pub with_suggestion : {V : Type 0} → LedgerEvent V → SuggestionId → LedgerEvent V
with_suggestion event suggestion_id = record event { suggestion_id = some suggestion_id }

-- `TraceWindow::default`.
abbrev pub default_window : TraceWindow
default_window = record { since = none; limit = some 100 }
