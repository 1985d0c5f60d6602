-- ===== src/Core/Orders.antt =====
-- crates/vsm-core/src/message.rs: the payloads by which nodes ask for and order work. A time is its number
-- of ticks, and `Utc::now()` is the argument `now`.
use vsm_agent_kernel.Base.{ℕ, String, Bool, Option, none, List, []}
use vsm_agent_kernel.Base.TreeMap.{TreeMap}
use vsm_agent_kernel.Core.Id.{NodeId, TaskId}
use vsm_agent_kernel.Core.Task.{RiskClass, medium, TaskPacket, TaskArtifact}

pub record ResourceBargain : Type 0 where
  pub requested_by : NodeId
  pub task_id : Option TaskId
  pub proposed_task : Option TaskPacket
  pub requested_tokens : Option ℕ
  pub requested_tool_permissions : List String
  pub requested_context_refs : List String
  pub justification : String

pub data ResourceAllocationStatus : Type 0 where
  approved : ResourceAllocationStatus
  partially_approved : ResourceAllocationStatus
  denied : ResourceAllocationStatus

pub record ResourceAllocationDecision : Type 0 where
  pub requested_by : NodeId
  pub task_id : Option TaskId
  pub status : ResourceAllocationStatus
  pub approved_tokens : Option ℕ
  pub approved_tool_permissions : List String
  pub denied_tool_permissions : List String
  pub approved_context_refs : List String
  pub denied_context_refs : List String
  pub reasons : List String
  pub allocation_policy : String
  pub created_at : ℕ

pub data OperationHandoffKind : Type 0 where
  work_in_progress : OperationHandoffKind
  dependency_ready : OperationHandoffKind
  dependency_blocked : OperationHandoffKind
  artifact_transfer : OperationHandoffKind
  review_request : OperationHandoffKind
  other : String → OperationHandoffKind

pub record OperationHandoff : Type 0 where
  pub source_node_id : NodeId
  pub target_node_id : NodeId
  pub related_task_id : Option TaskId
  pub dependency_task_ids : List TaskId
  pub kind : OperationHandoffKind
  pub title : String
  pub summary : String
  pub artifacts : List TaskArtifact
  pub evidence : List String
  pub metadata : TreeMap String String
  pub created_at : ℕ

pub data ManagementOperationKind : Type 0 where
  assign_work : ManagementOperationKind
  reprioritize : ManagementOperationKind
  integrate_result : ManagementOperationKind
  request_status : ManagementOperationKind
  local_policy : ManagementOperationKind
  other : String → ManagementOperationKind

pub record ManagementOperationDirective : Type 0 where
  pub manager_node_id : NodeId
  pub operation_node_id : NodeId
  pub related_task_id : Option TaskId
  pub dependency_task_ids : List TaskId
  pub kind : ManagementOperationKind
  pub title : String
  pub body : String
  pub target_state : Option String
  pub constraints : List String
  pub context_refs : List String
  pub authority_refs : List String
  pub risk : RiskClass
  pub metadata : TreeMap String String
  pub created_at : ℕ

pub record Command : Type 0 where
  pub issued_by : NodeId
  pub target : NodeId
  pub title : String
  pub body : String
  pub non_negotiable : Bool
  pub legal_or_policy_basis : Option String
  pub system5_identity : Option String
  pub policy_values : List String
  pub non_negotiable_constraints : List String
  pub denied_capabilities : List String
  pub metadata : TreeMap String String

-- `OperationHandoff::new`.
abbrev pub new_handoff :
    ℕ → NodeId → NodeId → OperationHandoffKind → String → String → OperationHandoff
new_handoff now source_node_id target_node_id kind title summary = record {
  source_node_id = source_node_id;
  target_node_id = target_node_id;
  related_task_id = none;
  dependency_task_ids = [];
  kind = kind;
  title = title;
  summary = summary;
  artifacts = [];
  evidence = [];
  metadata = [];
  created_at = now;
}

-- `ManagementOperationDirective::new`.
abbrev pub new_management_directive :
    ℕ → NodeId → NodeId → ManagementOperationKind → String → String → ManagementOperationDirective
new_management_directive now manager_node_id operation_node_id kind title body = record {
  manager_node_id = manager_node_id;
  operation_node_id = operation_node_id;
  related_task_id = none;
  dependency_task_ids = [];
  kind = kind;
  title = title;
  body = body;
  target_state = none;
  constraints = [];
  context_refs = [];
  authority_refs = [];
  risk = medium;
  metadata = [];
  created_at = now;
}
