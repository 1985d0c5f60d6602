-- ===== src/Ledger/Archive.antt =====
-- crates/vsm-ledger/src/state.rs: the archive of candidates and the generations of the evolution. `F`
-- stands for `f64`, a time is its number of ticks, and `Utc::now()` is the argument `now`.
use vsm_agent_kernel.Base.{ℕ, String, Bool, true, false, List, []}
use vsm_agent_kernel.Base.TreeMap.{TreeMap}
use vsm_agent_kernel.Core.Id.{NodeId, GenomeId, SuggestionId}
use vsm_agent_kernel.Ledger.Trial.{StoredTrialRecord}

pub data PopulationArchiveStatus : Type 0 where
  dominated : PopulationArchiveStatus
  pareto_frontier : PopulationArchiveStatus
  selected_for_trial : PopulationArchiveStatus
  promoted : PopulationArchiveStatus
  pruned : PopulationArchiveStatus
  rejected : PopulationArchiveStatus
  archived : PopulationArchiveStatus

pub record CandidateObjectiveSnapshot (F : Type 0) : Type 0 where
  pub expected_value : F
  pub safety : F
  pub historical_fit : F
  pub replay_fit : F
  pub complexity_cost : F
  pub exposure_cost : F

pub record PopulationArchiveRecord (F : Type 0) : Type 0 where
  pub trial_id : SuggestionId
  pub controller_node_id : NodeId
  pub base_genome_id : GenomeId
  pub candidate_genome_id : GenomeId
  pub status : PopulationArchiveStatus
  pub archived_at : ℕ
  pub updated_at : ℕ
  pub selection_policy : String
  pub selection_score : F
  pub pareto_frontier_size : ℕ
  pub objectives : CandidateObjectiveSnapshot F
  pub metadata : TreeMap String String

pub record EvolutionGenerationRecord : Type 0 where
  pub controller_node_id : NodeId
  pub generation : ℕ
  pub champion_genome_id : GenomeId
  pub created_at : ℕ
  pub updated_at : ℕ
  pub policy : String
  pub parent_trial_ids : List SuggestionId
  pub offspring_trial_ids : List SuggestionId
  pub mutation_operator_counts : TreeMap String ℕ
  pub metadata : TreeMap String String

-- `PopulationArchiveStatus::is_pareto_member`.
abbrev pub is_pareto_member : PopulationArchiveStatus → Bool
is_pareto_member pareto_frontier = true
is_pareto_member selected_for_trial = true
is_pareto_member promoted = true
is_pareto_member _ = false

-- `PopulationArchiveRecord::new`.
abbrev pub new_archive_record :
    {F : Type 0}
    → ℕ
    → NodeId
    → StoredTrialRecord F
    → PopulationArchiveStatus
    → String
    → F
    → ℕ
    → CandidateObjectiveSnapshot F
    → PopulationArchiveRecord F
new_archive_record now controller_node_id trial status policy score size objectives = record {
  trial_id = trial.trial_id;
  controller_node_id = controller_node_id;
  base_genome_id = trial.base_genome_id;
  candidate_genome_id = trial.candidate_genome_id;
  status = status;
  archived_at = now;
  updated_at = now;
  selection_policy = policy;
  selection_score = score;
  pareto_frontier_size = size;
  objectives = objectives;
  metadata = [];
}

-- `EvolutionGenerationRecord::new`.
abbrev pub new_generation_record :
    ℕ
    → NodeId
    → ℕ
    → GenomeId
    → String
    → List SuggestionId
    → List SuggestionId
    → TreeMap String ℕ
    → EvolutionGenerationRecord
new_generation_record now controller_node_id generation champion policy parents offspring counts =
    record {
      controller_node_id = controller_node_id;
      generation = generation;
      champion_genome_id = champion;
      created_at = now;
      updated_at = now;
      policy = policy;
      parent_trial_ids = parents;
      offspring_trial_ids = offspring;
      mutation_operator_counts = counts;
      metadata = [];
    }

-- `PopulationArchiveStatus::as_storage_key`.
abbrev pub archive_status_key : PopulationArchiveStatus → String
archive_status_key dominated = "dominated"
archive_status_key pareto_frontier = "pareto_frontier"
archive_status_key selected_for_trial = "selected_for_trial"
archive_status_key promoted = "promoted"
archive_status_key pruned = "pruned"
archive_status_key rejected = "rejected"
archive_status_key archived = "archived"
