-- ===== src/Runtime/Trial/Evaluation.antt =====
-- How a trial is judged by its traces (crates/vsm-runtime/src/trial.rs). `F` stands for `f64`.
use vsm_agent_kernel.Base.{ℕ, List, [], ◌∷◌, length, ltb, if◌then◌else◌, string_key}
use vsm_agent_kernel.Base.Float.{Float, naught}
use vsm_agent_kernel.Base.TreeMap.{TreeMap, values}
use vsm_agent_kernel.Core.Id.{NodeId}
use vsm_agent_kernel.Core.Fitness.{
  FitnessWeights, AttributionWeights, FitnessSummary, AttributedFitnessSummary,
}
use vsm_agent_kernel.Core.Fitness.Attributed.{summarize_attributed_fitness}
use vsm_agent_kernel.Core.Fitness.Direct.{summarize_direct_fitness}
use vsm_agent_kernel.Runtime.Trial.{MutationTrial, TrialConfig}

pub data TrialDecision : Type 0 where
  continue : TrialDecision
  promote : TrialDecision
  prune : TrialDecision

pub record TrialEvaluation (F : Type 0) : Type 0 where
  pub decision : TrialDecision
  pub trace_count : ℕ
  pub total_score : F

module _ {F : Type 0} ⦃f : Float F⦄ where
  -- `TrialConfig::default`.
  abbrev pub default_config : TrialConfig F
  default_config = record {
    min_tasks_before_decision = 10;
    promote_margin = f.literal 10 1;
    prune_below = f.negate (f.literal 100 1);
  }

  -- `values().map(|s| s.final_score).sum()`.
  unfoldable pub sum_scores : F → List (FitnessSummary F) → F
  sum_scores total [] = total
  sum_scores total (s ∷ rest) = sum_scores (f.plus total s.final_score) rest

  unfoldable pub decide : TrialConfig F → F → TrialDecision
  decide config total =
      if f.at_least total config.promote_margin
      then promote
      else if f.at_least config.prune_below total
      then prune
      else continue

  unfoldable pub evaluate : MutationTrial F → TrialConfig F → FitnessWeights F → TrialEvaluation F
  unfolding sum_scores decide summarize_direct_fitness values
  evaluate trial config weights =
      if ltb (length trial.traces) config.min_tasks_before_decision
      then record { decision = continue; trace_count = length trial.traces; total_score = naught }
      else let total =
          sum_scores f.empty_sum (values (summarize_direct_fitness trial.traces weights [])) in
        record {
          decision = decide config total;
          trace_count = length trial.traces;
          total_score = total;
        }

  unfoldable pub decision : MutationTrial F → TrialConfig F → FitnessWeights F → TrialDecision
  unfolding evaluate
  decision trial config weights = (evaluate trial config weights).decision

  unfoldable pub attributed_fitness_with_complexity :
      MutationTrial F
      → FitnessWeights F
      → AttributionWeights F
      → TreeMap NodeId F
      → TreeMap NodeId (AttributedFitnessSummary F)
  unfolding summarize_attributed_fitness
  attributed_fitness_with_complexity trial weights attribution complexity_by_node =
      summarize_attributed_fitness trial.traces weights attribution complexity_by_node

  unfoldable pub attributed_fitness :
      MutationTrial F
      → FitnessWeights F
      → AttributionWeights F
      → TreeMap NodeId (AttributedFitnessSummary F)
  unfolding attributed_fitness_with_complexity
  attributed_fitness trial weights attribution =
      attributed_fitness_with_complexity trial weights attribution []
