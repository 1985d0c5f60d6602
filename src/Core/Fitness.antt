-- ===== src/Core/Fitness.antt =====
-- crates/vsm-core/src/fitness.rs: the weights of the fitness, and the summaries of a node's traces. `F`
-- stands for `f64`. A count in `u64` is a number without a bound here.
pub mod Score
pub mod Direct
pub mod Attributed
use vsm_agent_kernel.Base.{ℕ}
use vsm_agent_kernel.Base.Float.{Float, naught}
use vsm_agent_kernel.Core.Id.{NodeId}

pub record FitnessWeights (F : Type 0) : Type 0 where
  pub accepted_merge_value : F
  pub failed_task_penalty : F
  pub reverted_penalty : F
  pub regression_penalty : F
  pub human_override_penalty : F
  pub token_cost_weight : F
  pub latency_ms_weight : F
  pub line_delta_weight : F
  pub coordination_message_weight : F
  pub org_complexity_weight : F

pub record AttributionWeights (F : Type 0) : Type 0 where
  pub direct_weight : F
  pub ancestor_initial_weight : F
  pub ancestor_decay : F

pub record FitnessSummary (F : Type 0) : Type 0 where
  pub node_id : NodeId
  pub task_count : ℕ
  pub merged_count : ℕ
  pub reverted_count : ℕ
  pub regression_count : ℕ
  pub human_override_count : ℕ
  pub tokens : ℕ
  pub latency_ms : ℕ
  pub raw_score : F
  pub complexity_penalty : F
  pub final_score : F

pub record AttributedFitnessSummary (F : Type 0) : Type 0 where
  pub node_id : NodeId
  pub direct_task_count : ℕ
  pub descendant_task_count : ℕ
  pub subtree_task_count : ℕ
  pub direct_tokens : ℕ
  pub subtree_tokens : ℕ
  pub direct_latency_ms : ℕ
  pub subtree_latency_ms : ℕ
  pub attribution_weight_total : F
  pub direct_score : F
  pub descendant_score : F
  pub raw_score : F
  pub complexity_penalty : F
  pub final_score : F

module _ {F : Type 0} ⦃f : Float F⦄ where
  -- `FitnessWeights::default`.
  abbrev pub default_weights : FitnessWeights F
  default_weights = record {
    accepted_merge_value = f.literal 100 1;
    failed_task_penalty = f.literal 50 1;
    reverted_penalty = f.literal 300 1;
    regression_penalty = f.literal 250 1;
    human_override_penalty = f.literal 200 1;
    token_cost_weight = f.literal 1 5;
    latency_ms_weight = f.literal 1 6;
    line_delta_weight = f.literal 1 3;
    coordination_message_weight = f.literal 5 2;
    org_complexity_weight = f.literal 25 2;
  }

  -- `AttributionWeights::default`.
  abbrev pub default_attribution : AttributionWeights F
  default_attribution = record {
    direct_weight = f.literal 10 1;
    ancestor_initial_weight = f.literal 10 1;
    ancestor_decay = f.literal 5 1;
  }

  unfoldable pub ancestor_weight : AttributionWeights F → ℕ → F
  ancestor_weight attribution depth =
      f.times attribution.ancestor_initial_weight (f.powi attribution.ancestor_decay depth)
