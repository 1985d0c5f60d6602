-- ===== src/Controller/Trial/Lifecycle.antt =====
-- How a trial of the queue becomes the active one, how it comes back after a restart, and how a task is
-- tagged for it (crates/vsm-controller/src/trial.rs). `zero` stands for `0.0`, and `Utc::now()` is `now`.
pub mod Restart
use vsm_agent_kernel.Base.{
  ℕ, String, Bool, true, false, not, ◌||◌, Option, none, some, List, [], ◌∷◌, Key, string_key, ◌==◌,
  if◌then◌else◌,
}
use vsm_agent_kernel.Base.Results.{Result, ok, err}
use vsm_agent_kernel.Base.TreeMap.{get, insert}
use vsm_agent_kernel.Core.Id.{NodeId, GenomeId, SuggestionId}
use vsm_agent_kernel.Core.Genome.{OrganizationalGenome}
use vsm_agent_kernel.Core.Task.{TaskPacket}
use vsm_agent_kernel.Core.Trace.{TaskTrace}
use vsm_agent_kernel.Controller.Error.{ControllerError, trial_already_active, trial_not_queued}
use vsm_agent_kernel.Controller.Trial.Manager.{TrialManager}
use vsm_agent_kernel.Ledger.Memory.{is_queued}
use vsm_agent_kernel.Ledger.Trial.{StoredTrialRecord, mark_active}
use vsm_agent_kernel.Runtime.Trial.{MutationTrial, restore}

pub record StartedTrial (F : Type 0) : Type 0 where
  pub suggestion_id : SuggestionId
  pub base_genome_id : GenomeId
  pub candidate_genome_id : GenomeId
  pub stored : StoredTrialRecord F

-- `BTreeSet::insert`, and the collection of a vector into a set.
unfoldable pub set_insert : NodeId → List NodeId → List NodeId
set_insert a [] = a ∷ []
set_insert a (b ∷ bs) =
    let rest = b ∷ set_insert a bs in
    if a == b then b ∷ bs else if string_key.before a b then a ∷ b ∷ bs else rest

unfoldable pub collect_set : List NodeId → List NodeId → List NodeId
unfolding set_insert
collect_set [] set = set
collect_set (a ∷ rest) set = collect_set rest (set_insert a set)

module _ {F : Type 0} where
  unfoldable pub register_candidate_worker : TrialManager F → NodeId → TrialManager F
  unfolding set_insert
  register_candidate_worker manager node_id = record manager {
    registered_candidate_workers = set_insert node_id manager.registered_candidate_workers;
  }

  -- The summary of a trial that both operations return.
  abbrev pub started_trial : StoredTrialRecord F → StartedTrial F
  started_trial r = record {
    suggestion_id = r.trial_id;
    base_genome_id = r.base_genome_id;
    candidate_genome_id = r.candidate_genome_id;
    stored = r;
  }

  -- The manager's fields from the record of the trial that becomes active.
  abbrev pub take_over : TrialManager F → StoredTrialRecord F → MutationTrial F → TrialManager F
  take_over manager r trial = record manager {
    active = some trial;
    registered_candidate_workers = collect_set r.registered_candidate_workers [];
    routed_tasks = r.routed_tasks;
    consumed_tokens = r.consumed_tokens;
    active_started_at = some r.started_at;
    active_metadata = r.metadata;
  }

  -- The record of a trial that is activated.
  abbrev pub activated : F → ℕ → StoredTrialRecord F → StoredTrialRecord F
  activated zero now r = record (mark_active now r) {
    routed_tasks = 0;
    consumed_tokens = 0;
    trace_count = 0;
    total_score = zero;
  }

  -- With the active trial of the manager as the last argument.
  unfoldable pub activate_unless :
      F
      → ℕ
      → TrialManager F
      → StoredTrialRecord F
      → OrganizationalGenome
      → Option (MutationTrial F)
      → Result ControllerError (StartedTrial F) × TrialManager F
  activate_unless zero now manager r candidate (some trial) =
      (err (trial_already_active trial.suggestion.id), manager)
  activate_unless zero now manager r candidate none =
      if not (is_queued r.status) then (err (trial_not_queued r.trial_id), manager) else (
        ok (started_trial (activated zero now r)),
        take_over manager (activated zero now r)
            (restore r.suggestion r.base_genome_id candidate []),
      )

  unfoldable pub activate_queued_trial :
      F
      → ℕ
      → TrialManager F
      → StoredTrialRecord F
      → OrganizationalGenome
      → Result ControllerError (StartedTrial F) × TrialManager F
  unfolding activate_unless
  activate_queued_trial zero now manager r candidate =
      activate_unless zero now manager r candidate manager.active

  unfoldable pub restore_unless :
      TrialManager F
      → StoredTrialRecord F
      → OrganizationalGenome
      → List (TaskTrace F)
      → Option (MutationTrial F)
      → Result ControllerError (StartedTrial F) × TrialManager F
  restore_unless manager r candidate traces (some trial) =
      (err (trial_already_active trial.suggestion.id), manager)
  restore_unless manager r candidate traces none = (
    ok (started_trial r),
    take_over manager r (restore r.suggestion r.base_genome_id candidate traces),
  )

  unfoldable pub restore_active_trial :
      TrialManager F
      → StoredTrialRecord F
      → OrganizationalGenome
      → List (TaskTrace F)
      → Result ControllerError (StartedTrial F) × TrialManager F
  unfolding restore_unless
  restore_active_trial manager r candidate traces =
      restore_unless manager r candidate traces manager.active

unfoldable pub tag_task_for_trial : TaskPacket → SuggestionId → GenomeId → TaskPacket
tag_task_for_trial task suggestion_id candidate_genome_id = record task {
  metadata = insert "candidate_genome_id" candidate_genome_id (
      insert "related_suggestion_id" suggestion_id (insert "trial_id" suggestion_id task.metadata));
}

first_of : Option String → Option String → Option String
first_of none second = second
first_of (some value) second = some value

unfoldable pub task_trial_suggestion_id : TaskPacket → Option SuggestionId
unfolding first_of
task_trial_suggestion_id task =
    first_of (get "related_suggestion_id" task.metadata) (get "trial_id" task.metadata)
