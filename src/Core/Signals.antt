-- ===== src/Core/Signals.antt =====
-- crates/vsm-core/src/message.rs: the payloads that report a state. A time is its number of ticks, and
-- `Utc::now()` is the argument `now`.
use vsm_agent_kernel.Base.{ℕ, String, Bool, Option, none, List, []}
use vsm_agent_kernel.Base.TreeMap.{TreeMap}
use vsm_agent_kernel.Core.Id.{NodeId, TaskId, SuggestionId}
use vsm_agent_kernel.Core.Patch.{OrganizationalGenomePatch}

pub data AlgedonicValence : Type 0 where
  pain : AlgedonicValence
  pleasure : AlgedonicValence

pub data AlgedonicSource : Type 0 where
  user : AlgedonicSource
  ci : AlgedonicSource
  production : AlgedonicSource
  security_scanner : AlgedonicSource
  cost_monitor : AlgedonicSource
  child_node : AlgedonicSource
  reviewer : AlgedonicSource
  external_environment : AlgedonicSource
  other : String → AlgedonicSource

pub record AlgedonicOverridePolicy : Type 0 where
  pub pause_subtree : Bool
  pub resume_subtree : Bool
  pub escalate_to_root : Bool
  pub freeze_mutation : Bool
  pub require_human_confirmation : Bool

pub record AlgedonicSignal : Type 0 where
  pub source : AlgedonicSource
  pub valence : AlgedonicValence
  pub severity : ℕ
  pub target_node_id : Option NodeId
  pub related_task_id : Option TaskId
  pub related_suggestion_id : Option SuggestionId
  pub message : String
  pub override_policy : Option AlgedonicOverridePolicy
  pub created_at : ℕ

pub data System2CoordinationKind : Type 0 where
  dependency_blocked : System2CoordinationKind
  dependency_ready : System2CoordinationKind
  contention : System2CoordinationKind
  oscillation : System2CoordinationKind
  handoff_notice : System2CoordinationKind
  other : String → System2CoordinationKind

pub record System2CoordinationSignal : Type 0 where
  pub coordinator_node_id : NodeId
  pub source_node_id : Option NodeId
  pub target_node_id : Option NodeId
  pub affected_node_ids : List NodeId
  pub affected_task_ids : List TaskId
  pub kind : System2CoordinationKind
  pub summary : String
  pub evidence : List String
  pub severity : Option ℕ
  pub metadata : TreeMap String String
  pub created_at : ℕ

pub data EnvironmentSignalKind : Type 0 where
  observation : EnvironmentSignalKind
  user_feedback : EnvironmentSignalKind
  artifact : EnvironmentSignalKind
  dependency_change : EnvironmentSignalKind
  capability_change : EnvironmentSignalKind
  risk : EnvironmentSignalKind
  opportunity : EnvironmentSignalKind
  other : String → EnvironmentSignalKind

pub record EnvironmentSignal : Type 0 where
  pub observed_by_node_id : Option NodeId
  pub target_node_id : Option NodeId
  pub related_task_id : Option TaskId
  pub related_suggestion_id : Option SuggestionId
  pub source_environment : String
  pub target_environment : Option String
  pub kind : EnvironmentSignalKind
  pub summary : String
  pub evidence : List String
  pub severity : Option ℕ
  pub metadata : TreeMap String String
  pub created_at : ℕ

pub data ThreeFourHomeostatKind : Type 0 where
  present_constraint : ThreeFourHomeostatKind
  future_risk : ThreeFourHomeostatKind
  future_opportunity : ThreeFourHomeostatKind
  capability_gap : ThreeFourHomeostatKind
  resource_imbalance : ThreeFourHomeostatKind
  coordination_debt : ThreeFourHomeostatKind
  other : String → ThreeFourHomeostatKind

pub data ThreeFourHomeostatBalance : Type 0 where
  present_dominant : ThreeFourHomeostatBalance
  future_dominant : ThreeFourHomeostatBalance
  balanced : ThreeFourHomeostatBalance
  conflict : ThreeFourHomeostatBalance

pub record ThreeFourHomeostatSignal : Type 0 where
  pub system_3_node_id : NodeId
  pub system_4_node_id : NodeId
  pub target_node_id : NodeId
  pub related_task_id : Option TaskId
  pub related_suggestion_id : Option SuggestionId
  pub kind : ThreeFourHomeostatKind
  pub balance : ThreeFourHomeostatBalance
  pub present_summary : String
  pub future_summary : String
  pub recommendation : String
  pub evidence : List String
  pub suggested_patches : List OrganizationalGenomePatch
  pub severity : Option ℕ
  pub metadata : TreeMap String String
  pub created_at : ℕ

pub record AuditRequest : Type 0 where
  pub requested_by : NodeId
  pub target_node_id : NodeId
  pub window_tasks : Option ℕ
  pub include_gene_suggestions : Bool

pub record AuditFinding : Type 0 where
  pub title : String
  pub evidence : List String
  pub severity : ℕ
  pub related_nodes : List NodeId
  pub related_tasks : List TaskId

pub record AuditReport : Type 0 where
  pub target_node_id : NodeId
  pub findings : List AuditFinding
  pub suggested_patches : List OrganizationalGenomePatch

-- `AlgedonicSignal::pain`.
abbrev pub new_pain : ℕ → AlgedonicSource → ℕ → String → AlgedonicSignal
new_pain now source severity message = record {
  source = source;
  valence = pain;
  severity = severity;
  target_node_id = none;
  related_task_id = none;
  related_suggestion_id = none;
  message = message;
  override_policy = none;
  created_at = now;
}

-- `System2CoordinationSignal::new`.
abbrev pub new_coordination_signal :
    ℕ → NodeId → System2CoordinationKind → String → System2CoordinationSignal
new_coordination_signal now coordinator_node_id kind summary = record {
  coordinator_node_id = coordinator_node_id;
  source_node_id = none;
  target_node_id = none;
  affected_node_ids = [];
  affected_task_ids = [];
  kind = kind;
  summary = summary;
  evidence = [];
  severity = none;
  metadata = [];
  created_at = now;
}

-- `EnvironmentSignal::new`.
abbrev pub new_environment_signal : ℕ → EnvironmentSignalKind → String → String → EnvironmentSignal
new_environment_signal now kind source_environment summary = record {
  observed_by_node_id = none;
  target_node_id = none;
  related_task_id = none;
  related_suggestion_id = none;
  source_environment = source_environment;
  target_environment = none;
  kind = kind;
  summary = summary;
  evidence = [];
  severity = none;
  metadata = [];
  created_at = now;
}

-- `ThreeFourHomeostatSignal::new`.
abbrev pub new_homeostat_signal :
    ℕ
    → NodeId
    → NodeId
    → NodeId
    → ThreeFourHomeostatKind
    → ThreeFourHomeostatBalance
    → String
    → ThreeFourHomeostatSignal
new_homeostat_signal now system_3 system_4 target_node_id kind balance recommendation = record {
  system_3_node_id = system_3;
  system_4_node_id = system_4;
  target_node_id = target_node_id;
  related_task_id = none;
  related_suggestion_id = none;
  kind = kind;
  balance = balance;
  present_summary = "";
  future_summary = "";
  recommendation = recommendation;
  evidence = [];
  suggested_patches = [];
  severity = none;
  metadata = [];
  created_at = now;
}
