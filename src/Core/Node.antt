-- ===== src/Core/Node.antt =====
-- crates/vsm-core/src/node.rs: the viable node and its parts, with the defaults of each.
use vsm_agent_kernel.Base.{
  ℕ, String, Bool, true, false, not, Option, none, some, List, [], is_empty, if◌then◌else◌,
}
use vsm_agent_kernel.Base.TreeMap.{TreeMap}
use vsm_agent_kernel.Core.Id.{NodeId}
use vsm_agent_kernel.Core.Channel.{ChannelConfig}
use vsm_agent_kernel.Core.Capability.{
  LeafOperationSpec, CapabilitySet, default_leaf_operation, for_leaf, for_metasystem,
}

pub record System5Policy : Type 0 where
  pub identity : String
  pub values : List String
  pub non_negotiable_constraints : List String
  pub denied_capabilities : List String

abbrev pub default_system_5 : System5Policy
default_system_5 = record {
  identity = "unclassified viable node";
  values = [];
  non_negotiable_constraints = [];
  denied_capabilities = [];
}

pub record System4Config : Type 0 where
  pub future_probe_enabled : Bool
  pub probe_interval_seconds : Option ℕ
  pub watched_environments : List String
  pub horizon : Option String

abbrev pub default_system_4 : System4Config
default_system_4 = record {
  future_probe_enabled = true;
  probe_interval_seconds = none;
  watched_environments = [];
  horizon = none;
}

pub record System3Config : Type 0 where
  pub can_allocate_budget : Bool
  pub can_decompose_tasks : Bool
  pub can_issue_commands : Bool
  pub can_integrate_child_outputs : Bool
  pub max_parallel_children : Option ℕ
  pub default_task_budget_tokens : Option ℕ

abbrev pub default_system_3 : System3Config
default_system_3 = record {
  can_allocate_budget = true;
  can_decompose_tasks = true;
  can_issue_commands = true;
  can_integrate_child_outputs = true;
  max_parallel_children = none;
  default_task_budget_tokens = none;
}

pub record System3StarConfig : Type 0 where
  pub audit_enabled : Bool
  pub audit_interval_seconds : Option ℕ
  pub audit_window_tasks : Option ℕ
  pub gene_suggestion_enabled : Bool

abbrev pub default_system_3_star : System3StarConfig
default_system_3_star = record {
  audit_enabled = true;
  audit_interval_seconds = none;
  audit_window_tasks = some 50;
  gene_suggestion_enabled = true;
}

pub data PromptOrigin : Type 0 where
  manual mutation summarized_memory task_cluster system_policy : PromptOrigin

pub record PromptComponent : Type 0 where
  pub id : String
  pub text : String
  pub tags : List String
  pub origin : PromptOrigin
  pub active : Bool

pub record PromptGenome : Type 0 where
  pub base_identity : String
  pub behavior_rules : List PromptComponent
  pub domain_hints : List PromptComponent
  pub codebase_conventions : List PromptComponent
  pub negative_constraints : List PromptComponent
  pub output_contract : Option PromptComponent

abbrev pub default_prompt : PromptGenome
default_prompt = record {
  base_identity = "";
  behavior_rules = [];
  domain_hints = [];
  codebase_conventions = [];
  negative_constraints = [];
  output_contract = none;
}

pub record ModelSpec : Type 0 where
  pub provider : String
  pub model : String
  pub effort : Option String
  pub max_context_tokens : Option ℕ

abbrev pub default_model : ModelSpec
default_model = record {
  provider = "abstract";
  model = "unbound";
  effort = none;
  max_context_tokens = none;
}

pub record ToolSpec : Type 0 where
  pub name : String
  pub description : Option String
  pub permissions : List String
  pub enabled : Bool

pub record ContextPolicy : Type 0 where
  pub fixed_context_refs : List String
  pub retrievable_context_refs : List String
  pub max_retrieval_tokens : Option ℕ
  pub max_total_task_tokens : Option ℕ

abbrev pub default_context_policy : ContextPolicy
default_context_policy = record {
  fixed_context_refs = [];
  retrievable_context_refs = [];
  max_retrieval_tokens = none;
  max_total_task_tokens = none;
}

pub record PermissionSpec : Type 0 where
  pub allowed_paths : List String
  pub denied_paths : List String
  pub allowed_tools : List String
  pub denied_tools : List String
  pub requires_human_approval : Bool

abbrev pub default_permissions : PermissionSpec
default_permissions = record {
  allowed_paths = [];
  denied_paths = [];
  allowed_tools = [];
  denied_tools = [];
  requires_human_approval = false;
}

pub data NodeLifecycleStatus : Type 0 where
  shadow probation active retired : NodeLifecycleStatus

pub record ViableNode : Type 0 where
  pub id : NodeId
  pub parent_id : Option NodeId
  pub name : String
  pub system_5 : System5Policy
  pub system_4 : System4Config
  pub system_3 : System3Config
  pub system_3_star : System3StarConfig
  pub children : List NodeId
  pub leaf_operation : LeafOperationSpec
  pub model : ModelSpec
  pub prompt : PromptGenome
  pub tools : List ToolSpec
  pub context_policy : ContextPolicy
  pub permissions : PermissionSpec
  pub channels : List ChannelConfig
  pub age_epochs : ℕ
  pub status : NodeLifecycleStatus
  pub metadata : TreeMap String String

-- The id is the one that `NodeId::new` draws.
abbrev pub new_leaf : NodeId → String → LeafOperationSpec → ViableNode
new_leaf id name operation = record {
  id = id;
  parent_id = none;
  name = name;
  system_5 = default_system_5;
  system_4 = default_system_4;
  system_3 = default_system_3;
  system_3_star = default_system_3_star;
  children = [];
  leaf_operation = operation;
  model = default_model;
  prompt = default_prompt;
  tools = [];
  context_policy = default_context_policy;
  permissions = default_permissions;
  channels = [];
  age_epochs = 0;
  status = active;
  metadata = [];
}

-- It differs from `new_leaf` only in the leaf operation, which is the default one.
abbrev pub new_metasystem : NodeId → String → ViableNode
new_metasystem id name = record {
  id = id;
  parent_id = none;
  name = name;
  system_5 = default_system_5;
  system_4 = default_system_4;
  system_3 = default_system_3;
  system_3_star = default_system_3_star;
  children = [];
  leaf_operation = default_leaf_operation;
  model = default_model;
  prompt = default_prompt;
  tools = [];
  context_policy = default_context_policy;
  permissions = default_permissions;
  channels = [];
  age_epochs = 0;
  status = active;
  metadata = [];
}

unfoldable pub is_leaf : ViableNode → Bool
is_leaf node = is_empty node.children

unfoldable pub is_metasystem : ViableNode → Bool
is_metasystem node = not (is_empty node.children)

unfoldable pub capabilities : ViableNode → CapabilitySet
unfolding is_metasystem for_leaf for_metasystem
capabilities node = if is_metasystem node then for_metasystem else for_leaf node.leaf_operation
