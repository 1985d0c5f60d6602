-- ===== src/Core/Task.antt =====
-- crates/vsm-core/src/task.rs: task packets, task results and directives.
use vsm_agent_kernel.Base.{String, Bool, false, Option, none, some, List, []}
use vsm_agent_kernel.Base.TreeMap.{TreeMap}
use vsm_agent_kernel.Core.Id.{NodeId, TaskId, DirectiveId}

pub data RiskClass : Type 0 where
  low medium high critical : RiskClass

pub record StaticTaskPredicates : Type 0 where
  pub languages : List String
  pub likely_files : List String
  pub modules : List String
  pub dependencies : List String
  pub test_targets : List String
  pub public_api_touched : Bool
  pub database_touched : Bool
  pub auth_touched : Bool
  pub config_touched : Bool
  pub migration_touched : Bool
  pub security_sensitive : Bool
  pub estimated_blast_radius : Option RiskClass
  pub tags : List String
  pub domain_markers : TreeMap String String

abbrev pub default_predicates : StaticTaskPredicates
default_predicates = record {
  languages = [];
  likely_files = [];
  modules = [];
  dependencies = [];
  test_targets = [];
  public_api_touched = false;
  database_touched = false;
  auth_touched = false;
  config_touched = false;
  migration_touched = false;
  security_sensitive = false;
  estimated_blast_radius = none;
  tags = [];
  domain_markers = [];
}

pub record AcceptanceCriterion : Type 0 where
  pub name : String
  pub description : String
  pub verifier : Option String

pub record TaskPacket : Type 0 where
  pub id : TaskId
  pub directive_id : Option DirectiveId
  pub parent_task_id : Option TaskId
  pub title : String
  pub goal : String
  pub target_state : Option String
  pub scope : List String
  pub constraints : List String
  pub context_refs : List String
  pub authority_refs : List String
  pub dependencies : List TaskId
  pub acceptance : List AcceptanceCriterion
  pub risk : RiskClass
  pub static_predicates : StaticTaskPredicates
  pub assigned_to : Option NodeId
  pub metadata : TreeMap String String

-- `TaskPacket::new`; the id is the one that `TaskId::new` draws.
abbrev pub new_task : TaskId → String → String → TaskPacket
new_task id title goal = record {
  id = id;
  directive_id = none;
  parent_task_id = none;
  title = title;
  goal = goal;
  target_state = none;
  scope = [];
  constraints = [];
  context_refs = [];
  authority_refs = [];
  dependencies = [];
  acceptance = [];
  risk = medium;
  static_predicates = default_predicates;
  assigned_to = none;
  metadata = [];
}

pub data TaskOutcomeStatus : Type 0 where
  completed failed rejected needs_human noop : TaskOutcomeStatus

pub record TaskArtifact : Type 0 where
  pub kind : String
  pub uri : Option String
  pub content : Option String
  pub metadata : TreeMap String String

-- `TaskArtifact::inline`.
abbrev pub inline_artifact : String → String → TaskArtifact
inline_artifact kind content = record {
  kind = kind;
  uri = none;
  content = some content;
  metadata = [];
}

pub record TaskResult : Type 0 where
  pub task_id : TaskId
  pub produced_by : NodeId
  pub status : TaskOutcomeStatus
  pub summary : String
  pub artifacts : List TaskArtifact
  pub files_touched : List String
  pub tests_run : List String
  pub error : Option String
  pub metadata : TreeMap String String

-- `TaskResult::completed` and `TaskResult::failed`.
abbrev pub completed_result : TaskId → NodeId → String → TaskResult
completed_result task_id produced_by summary = record {
  task_id = task_id;
  produced_by = produced_by;
  status = completed;
  summary = summary;
  artifacts = [];
  files_touched = [];
  tests_run = [];
  error = none;
  metadata = [];
}

abbrev pub failed_result : TaskId → NodeId → String → String → TaskResult
failed_result task_id produced_by summary error = record {
  task_id = task_id;
  produced_by = produced_by;
  status = failed;
  summary = summary;
  artifacts = [];
  files_touched = [];
  tests_run = [];
  error = some error;
  metadata = [];
}

pub record Directive : Type 0 where
  pub id : DirectiveId
  pub origin : String
  pub title : String
  pub body : String
  pub constraints : List String
  pub desired_state : Option String
  pub risk : RiskClass
  pub metadata : TreeMap String String

-- `Directive::new`; the id is the one that `DirectiveId::new` draws.
abbrev pub new_directive : DirectiveId → String → String → String → Directive
new_directive id origin title body = record {
  id = id;
  origin = origin;
  title = title;
  body = body;
  constraints = [];
  desired_state = none;
  risk = medium;
  metadata = [];
}
