-- ===== src/Ledger/Trial.antt =====
-- crates/vsm-ledger/src/state.rs: the records of trials, with their status. `F` stands for `f64`, a time is
-- its number of ticks, and `Utc::now()` is the argument `now`.
use vsm_agent_kernel.Base.{ℕ, String, Option, none, some, List, [], string_key}
use vsm_agent_kernel.Base.TreeMap.{TreeMap, insert}
use vsm_agent_kernel.Core.Id.{NodeId, GenomeId, SuggestionId}
use vsm_agent_kernel.Core.Suggestion.{GeneSuggestion}

pub data StoredTrialStatus : Type 0 where
  queued : StoredTrialStatus
  active : StoredTrialStatus
  promoted : StoredTrialStatus
  pruned : StoredTrialStatus
  rejected : StoredTrialStatus
  frozen : StoredTrialStatus
  archived : StoredTrialStatus

pub data StoredTrialDecision : Type 0 where
  continue : StoredTrialDecision
  promote : StoredTrialDecision
  prune : StoredTrialDecision

pub record StoredTrialRecord (F : Type 0) : Type 0 where
  pub trial_id : SuggestionId
  pub controller_node_id : NodeId
  pub base_genome_id : GenomeId
  pub candidate_genome_id : GenomeId
  pub suggestion : GeneSuggestion
  pub status : StoredTrialStatus
  pub started_at : ℕ
  pub updated_at : ℕ
  pub completed_at : Option ℕ
  pub routed_tasks : ℕ
  pub consumed_tokens : ℕ
  pub trace_count : ℕ
  pub total_score : F
  pub decision : Option StoredTrialDecision
  pub registered_candidate_workers : List NodeId
  pub metadata : TreeMap String String

-- `StoredTrialRecord::active` and `StoredTrialRecord::queued`.
abbrev pub active_record :
    {F : Type 0} → F → ℕ → NodeId → GenomeId → GenomeId → GeneSuggestion → StoredTrialRecord F
active_record zero now controller_node_id base_genome_id candidate_genome_id suggestion = record {
  trial_id = suggestion.id;
  controller_node_id = controller_node_id;
  base_genome_id = base_genome_id;
  candidate_genome_id = candidate_genome_id;
  suggestion = suggestion;
  status = active;
  started_at = now;
  updated_at = now;
  completed_at = none;
  routed_tasks = 0;
  consumed_tokens = 0;
  trace_count = 0;
  total_score = zero;
  decision = none;
  registered_candidate_workers = [];
  metadata = [];
}

abbrev pub queued_record :
    {F : Type 0} → F → ℕ → NodeId → GenomeId → GenomeId → GeneSuggestion → StoredTrialRecord F
queued_record zero now controller_node_id base_genome_id candidate_genome_id suggestion =
    record (active_record zero now controller_node_id base_genome_id candidate_genome_id
      suggestion) { status = queued }

abbrev pub mark_active : {F : Type 0} → ℕ → StoredTrialRecord F → StoredTrialRecord F
mark_active now r = record r {
  status = active;
  started_at = now;
  updated_at = now;
  completed_at = none;
  decision = none;
}

abbrev pub mark_rejected : {F : Type 0} → ℕ → String → StoredTrialRecord F → StoredTrialRecord F
mark_rejected now reason r = record r {
  status = rejected;
  updated_at = now;
  completed_at = some now;
  decision = none;
  metadata = insert "rejection_reason" reason r.metadata;
}

abbrev pub mark_frozen : {F : Type 0} → ℕ → String → StoredTrialRecord F → StoredTrialRecord F
mark_frozen now reason r = record r {
  status = frozen;
  updated_at = now;
  completed_at = some now;
  decision = none;
  metadata = insert "freeze_reason" reason r.metadata;
}

-- `StoredTrialStatus::as_storage_key`.
abbrev pub trial_status_key : StoredTrialStatus → String
trial_status_key queued = "queued"
trial_status_key active = "active"
trial_status_key promoted = "promoted"
trial_status_key pruned = "pruned"
trial_status_key rejected = "rejected"
trial_status_key frozen = "frozen"
trial_status_key archived = "archived"

-- `StoredTrialDecision::as_storage_key`.
abbrev pub trial_decision_key : StoredTrialDecision → String
trial_decision_key continue = "continue"
trial_decision_key promote = "promote"
trial_decision_key prune = "prune"
