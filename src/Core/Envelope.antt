-- ===== src/Core/Envelope.antt =====
-- crates/vsm-core/src/message.rs: the envelope of a message. `V` stands for `serde_json::Value`, and the
-- serialization is an argument, with its error as a string.
use vsm_agent_kernel.Base.{ℕ, String, Option, none, List, []}
use vsm_agent_kernel.Base.Results.{Result, ok, err}
use vsm_agent_kernel.Base.TreeMap.{TreeMap}
use vsm_agent_kernel.Core.Id.{NodeId}
use vsm_agent_kernel.Core.Channel.{
  VsmChannelType, resource_bargaining, operation_to_environment, management_to_operation,
  ChannelPriority, normal,
}

pub record MessageEnvelope (V : Type 0) : Type 0 where
  pub id : String
  pub channel_type : VsmChannelType
  pub source_node_id : Option NodeId
  pub target_node_id : Option NodeId
  pub correlation_id : Option String
  pub causation_id : Option String
  pub priority : ChannelPriority
  pub created_at : ℕ
  pub payload_type : String
  pub payload : V
  pub trace : List NodeId
  pub metadata : TreeMap String String

pub data BuiltinPayloadType : Type 0 where
  directive : BuiltinPayloadType
  task_packet : BuiltinPayloadType
  task_result : BuiltinPayloadType
  resource_bargain : BuiltinPayloadType
  resource_allocation_decision : BuiltinPayloadType
  system2_coordination_signal : BuiltinPayloadType
  operation_handoff : BuiltinPayloadType
  management_operation_directive : BuiltinPayloadType
  environment_signal : BuiltinPayloadType
  command : BuiltinPayloadType
  audit_request : BuiltinPayloadType
  audit_report : BuiltinPayloadType
  algedonic_signal : BuiltinPayloadType
  three_four_homeostat_signal : BuiltinPayloadType
  gene_suggestion : BuiltinPayloadType

abbrev pub as_str : BuiltinPayloadType → String
as_str directive = "vsm.directive"
as_str task_packet = "vsm.task_packet"
as_str task_result = "vsm.task_result"
as_str resource_bargain = "vsm.resource_bargain"
as_str resource_allocation_decision = "vsm.resource_allocation_decision"
as_str system2_coordination_signal = "vsm.system2_coordination_signal"
as_str operation_handoff = "vsm.operation_handoff"
as_str management_operation_directive = "vsm.management_operation_directive"
as_str environment_signal = "vsm.environment_signal"
as_str command = "vsm.command"
as_str audit_request = "vsm.audit_request"
as_str audit_report = "vsm.audit_report"
as_str algedonic_signal = "vsm.algedonic_signal"
as_str three_four_homeostat_signal = "vsm.three_four_homeostat_signal"
as_str gene_suggestion = "vsm.gene_suggestion"

-- `MessageEnvelope::new`, where `serialized` is the outcome of `serde_json::to_value(payload)`.
abbrev pub new_envelope :
    {V : Type 0}
    → String
    → ℕ
    → VsmChannelType
    → String
    → Result String V
    → Result String (MessageEnvelope V)
new_envelope id now channel_type payload_type (err e) = err e
new_envelope id now channel_type payload_type (ok payload) = ok (record {
  id = id;
  channel_type = channel_type;
  source_node_id = none;
  target_node_id = none;
  correlation_id = none;
  causation_id = none;
  priority = normal;
  created_at = now;
  payload_type = payload_type;
  payload = payload;
  trace = [];
  metadata = [];
})

abbrev pub with_route :
    {V : Type 0} → MessageEnvelope V → Option NodeId → Option NodeId → MessageEnvelope V
with_route envelope source target = record envelope {
  source_node_id = source;
  target_node_id = target;
}

abbrev pub with_priority : {V : Type 0} → MessageEnvelope V → ChannelPriority → MessageEnvelope V
with_priority envelope priority = record envelope { priority = priority }

abbrev pub envelope_for_directive :
    {V : Type 0} → String → ℕ → Result String V → Result String (MessageEnvelope V)
envelope_for_directive id now = new_envelope id now operation_to_environment (as_str directive)

abbrev pub envelope_for_task :
    {V : Type 0} → String → ℕ → Result String V → Result String (MessageEnvelope V)
envelope_for_task id now = new_envelope id now resource_bargaining (as_str task_packet)

abbrev pub envelope_for_task_result :
    {V : Type 0} → String → ℕ → Result String V → Result String (MessageEnvelope V)
envelope_for_task_result id now = new_envelope id now management_to_operation (as_str task_result)
