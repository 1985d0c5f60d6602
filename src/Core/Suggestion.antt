-- ===== src/Core/Suggestion.antt =====
-- crates/vsm-core/src/suggestion.rs: a suggested mutation, and how it is to be tried and measured.
use vsm_agent_kernel.Base.{ℕ, String, Bool, false, Option, none, some, List, [], ◌∷◌}
use vsm_agent_kernel.Core.Id.{NodeId, SuggestionId}
use vsm_agent_kernel.Core.Patch.{OrganizationalGenomePatch}

pub data GeneSuggestionSource : Type 0 where
  system3_star_audit : GeneSuggestionSource
  system4_future_probe : GeneSuggestionSource
  system1_resource_bargain : GeneSuggestionSource
  system2_coordination_signal : GeneSuggestionSource
  algedonic_signal : GeneSuggestionSource
  other : String → GeneSuggestionSource

pub data TrialMode : Type 0 where
  shadow : TrialMode
  probation : TrialMode
  canary : TrialMode
  direct : TrialMode

pub record TrialSafetyLimits : Type 0 where
  pub max_token_budget : Option ℕ
  pub max_tasks : Option ℕ
  pub max_traffic_share_basis_points : Option ℕ
  pub max_files_touched : Option ℕ
  pub allowed_task_classes : List String
  pub requires_approval : Bool

pub data CompareAgainst : Type 0 where
  current_parent : CompareAgainst
  sibling : NodeId → CompareAgainst
  champion_genome : CompareAgainst
  baseline : String → CompareAgainst

pub record MeasurementPlan : Type 0 where
  pub window_tasks : Option ℕ
  pub window_days : Option ℕ
  pub compare_against : CompareAgainst
  pub success_metrics : List String
  pub failure_metrics : List String

pub record RollbackPlan : Type 0 where
  pub remove_nodes : List NodeId
  pub restore_genome_id : Option String
  pub notes : Option String

pub record GeneSuggestion : Type 0 where
  pub id : SuggestionId
  pub suggested_by_node_id : NodeId
  pub target_node_id : NodeId
  pub source : GeneSuggestionSource
  pub patch : OrganizationalGenomePatch
  pub evidence : List String
  pub hypothesis : String
  pub trial_mode : TrialMode
  pub safety_limits : TrialSafetyLimits
  pub measurement_plan : MeasurementPlan
  pub rollback_plan : RollbackPlan

abbrev pub default_limits : TrialSafetyLimits
default_limits = record {
  max_token_budget = none;
  max_tasks = none;
  max_traffic_share_basis_points = none;
  max_files_touched = none;
  allowed_task_classes = [];
  requires_approval = false;
}

-- `GeneSuggestion::new`; the id is the one that `SuggestionId::new` draws.
abbrev pub new_suggestion :
    SuggestionId
    → NodeId
    → NodeId
    → GeneSuggestionSource
    → OrganizationalGenomePatch
    → String
    → GeneSuggestion
new_suggestion id suggested_by_node_id target_node_id source patch hypothesis = record {
  id = id;
  suggested_by_node_id = suggested_by_node_id;
  target_node_id = target_node_id;
  source = source;
  patch = patch;
  evidence = [];
  hypothesis = hypothesis;
  trial_mode = probation;
  safety_limits = default_limits;
  measurement_plan = record {
    window_tasks = some 25;
    window_days = none;
    compare_against = current_parent;
    success_metrics = "accepted_task_value" ∷ "regression_rate" ∷ [];
    failure_metrics = "token_cost" ∷ "revert_rate" ∷ [];
  };
  rollback_plan = record { remove_nodes = []; restore_genome_id = none; notes = none };
}
