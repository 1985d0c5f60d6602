-- ===== src/Controller/Trial/Operations.antt =====
-- The operations of `TrialManager` (crates/vsm-controller/src/trial.rs) that start a trial, follow it and end
-- it. `F` stands for `f64`; each reading of `Utc::now()` is an argument.
pub mod Phases
pub mod Accounts
use vsm_agent_kernel.Base.{
  ℕ, ◌+◌, ◌-◌, ◌*◌, String, Bool, true, false, not, Option, none, some, List, [], any, string_key,
  ◌==◌, ltb, if◌then◌else◌,
}
use vsm_agent_kernel.Base.Float.{Float, naught}
use vsm_agent_kernel.Base.Results.{Result, ok, err}
use vsm_agent_kernel.Base.TreeMap.{get, insert, option_map}
use vsm_agent_kernel.Core.Id.{NodeId, GenomeId, SuggestionId}
use vsm_agent_kernel.Core.Fitness.{FitnessWeights}
use vsm_agent_kernel.Core.Genome.{OrganizationalGenome}
use vsm_agent_kernel.Core.Patch.{PatchError}
use vsm_agent_kernel.Core.Suggestion.{GeneSuggestion}
use vsm_agent_kernel.Core.Trace.{TaskTrace, token_total}
use vsm_agent_kernel.Controller.Error.{
  ControllerError, patch, trial_already_active, no_active_trial,
}
use vsm_agent_kernel.Controller.Trial.Lifecycle.{StartedTrial}
use vsm_agent_kernel.Controller.Trial.Manager.{TrialManager}
use vsm_agent_kernel.Ledger.Trial.{
  StoredTrialStatus, StoredTrialDecision, StoredTrialRecord, active, promoted, pruned, frozen,
  active_record as new_active_record, queued_record,
}
use vsm_agent_kernel.Runtime.Trial.{
  MutationTrial, TrialConfig, from_suggestion, record_trace as push_trace,
}
use vsm_agent_kernel.Runtime.Trial.Evaluation.{
  TrialEvaluation, default_config, evaluate as evaluate_trial,
}
use Prim.Native.Nat.{◌^◌}

pub record QueuedTrial (F : Type 0) : Type 0 where
  pub suggestion_id : SuggestionId
  pub base_genome_id : GenomeId
  pub candidate_genome_id : GenomeId
  pub candidate_genome : OrganizationalGenome
  pub stored : StoredTrialRecord F

pub record CompletedTrial (F : Type 0) : Type 0 where
  pub suggestion_id : SuggestionId
  pub base_genome_id : GenomeId
  pub candidate_genome_id : GenomeId
  pub candidate_genome : OrganizationalGenome
  pub evaluation : TrialEvaluation F
  pub stored : StoredTrialRecord F

-- `u64::saturating_add`.
unfoldable pub saturating_add : ℕ → ℕ → ℕ
saturating_add a b = if ltb (a + b) (2 ^ 64) then a + b else 2 ^ 64 - 1

unfoldable pub is_active : StoredTrialStatus → Bool
is_active active = true
is_active _ = false

abbrev pub started_or : Option ℕ → ℕ → ℕ
started_or none created = created
started_or (some started_at) created = started_at

module _ {F : Type 0} where
  -- `related_suggestion_ids.iter().any(..)`.
  unfoldable pub names_suggestion : SuggestionId → TaskTrace F → Bool
  names_suggestion suggestion_id trace =
      any (λ related. related == suggestion_id) trace.related_suggestion_ids

module _ {F : Type 0} ⦃f : Float F⦄ where
  -- `TrialManager::with_config`.
  abbrev pub with_config : TrialConfig F → FitnessWeights F → TrialManager F
  with_config config weights = record {
    config = config;
    weights = weights;
    active = none;
    archived = [];
    registered_candidate_workers = [];
    routed_tasks = 0;
    consumed_tokens = 0;
    active_started_at = none;
    active_metadata = [];
  }

  -- `created` is read by `StoredTrialRecord::active`, `updated` at the end.
  unfoldable pub record_for_trial :
      TrialManager F
      → ℕ
      → ℕ
      → MutationTrial F
      → NodeId
      → StoredTrialStatus
      → Option StoredTrialDecision
      → StoredTrialRecord F
  unfolding evaluate_trial is_active
  record_for_trial manager created updated trial controller_node_id status decision =
      let evaluation = evaluate_trial trial manager.config manager.weights in
      let fresh =
        new_active_record naught created controller_node_id trial.base_genome_id
          trial.candidate_genome.id trial.suggestion in
      record fresh {
        started_at = started_or manager.active_started_at created;
        status = status;
        routed_tasks = manager.routed_tasks;
        consumed_tokens = manager.consumed_tokens;
        trace_count = evaluation.trace_count;
        total_score = evaluation.total_score;
        decision = decision;
        registered_candidate_workers = manager.registered_candidate_workers;
        metadata = manager.active_metadata;
        updated_at = updated;
        completed_at = if is_active status then none else some updated;
      }

  -- `start_trial` behind `from_suggestion`, with the active trial as the last argument.
  unfoldable pub start_unless :
      TrialManager F
      → ℕ
      → ℕ
      → ℕ
      → NodeId
      → Result PatchError (MutationTrial F)
      → Option (MutationTrial F)
      → Result ControllerError (StartedTrial F) × TrialManager F
  unfolding record_for_trial
  start_unless manager created updated begun controller_node_id made (some trial) =
      (err (trial_already_active trial.suggestion.id), manager)
  start_unless manager created updated begun controller_node_id (err e) none =
      (err (patch e), manager)
  start_unless manager created updated begun controller_node_id (ok trial) none = (
    ok (record {
      suggestion_id = trial.suggestion.id;
      base_genome_id = trial.base_genome_id;
      candidate_genome_id = trial.candidate_genome.id;
      stored = record_for_trial manager created updated trial controller_node_id active none;
    }),
    record manager {
      routed_tasks = 0;
      consumed_tokens = 0;
      active_started_at = some begun;
      active_metadata = [];
      active = some trial;
    },
  )

  unfoldable pub start_with :
      TrialManager F
      → ℕ
      → ℕ
      → ℕ
      → NodeId
      → Result PatchError (MutationTrial F)
      → Result ControllerError (StartedTrial F) × TrialManager F
  unfolding start_unless
  start_with manager created updated begun controller_node_id made =
      start_unless manager created updated begun controller_node_id made manager.active

  -- With the ids and the fuel of the patch; the number of ids drawn comes last. No id is drawn if a trial is
  -- active.
  unfoldable pub start_trial :
      (ℕ → String)
      → ℕ
      → ℕ
      → TrialManager F
      → ℕ
      → ℕ
      → ℕ
      → NodeId
      → OrganizationalGenome
      → GeneSuggestion
      → Option ((Result ControllerError (StartedTrial F) × TrialManager F) × ℕ)
  unfolding start_with from_suggestion
  start_trial uuid fuel issued manager created updated begun controller_node_id champion
        suggestion =
      elim manager.active [
        | some trial ↦ some ((err (trial_already_active trial.suggestion.id), manager), issued)
        | none ↦
            option_map
              (λ made. (start_with manager created updated begun controller_node_id made.0, made.1))
              (from_suggestion uuid fuel issued champion suggestion)
      ]

  unfoldable pub queued_trial :
      ℕ → NodeId → Result PatchError (MutationTrial F) → Result ControllerError (QueuedTrial F)
  queued_trial now controller_node_id (err e) = err (patch e)
  queued_trial now controller_node_id (ok trial) = ok (record {
    suggestion_id = trial.suggestion.id;
    base_genome_id = trial.base_genome_id;
    candidate_genome_id = trial.candidate_genome.id;
    candidate_genome = trial.candidate_genome;
    stored =
        queued_record naught now controller_node_id trial.base_genome_id trial.candidate_genome.id
          trial.suggestion;
  })

  -- The manager is only read, and not used.
  unfoldable pub queue_candidate :
      (ℕ → String)
      → ℕ
      → ℕ
      → ℕ
      → NodeId
      → OrganizationalGenome
      → GeneSuggestion
      → Option (Result ControllerError (QueuedTrial F) × ℕ)
  unfolding queued_trial from_suggestion
  queue_candidate uuid fuel issued now controller_node_id champion suggestion =
      option_map (λ made. (queued_trial now controller_node_id made.0, made.1))
        (from_suggestion uuid fuel issued champion suggestion)

  abbrev pub mark_task_routed : TrialManager F → TrialManager F
  mark_task_routed manager = record manager { routed_tasks = manager.routed_tasks + 1 }

  unfoldable pub record_in :
      TrialManager F
      → TaskTrace F
      → Option (MutationTrial F)
      → Option (TrialEvaluation F) × TrialManager F
  unfolding names_suggestion saturating_add token_total evaluate_trial
  record_in manager trace none = (none, manager)
  record_in manager trace (some trial) =
      if not (names_suggestion trial.suggestion.id trace) then (none, manager) else (
        some (evaluate_trial (push_trace trial trace) manager.config manager.weights),
        record manager {
          consumed_tokens = saturating_add manager.consumed_tokens (token_total trace);
          active = some (push_trace trial trace);
        },
      )

  unfoldable pub record_trace :
      TrialManager F → TaskTrace F → Option (TrialEvaluation F) × TrialManager F
  unfolding record_in
  record_trace manager trace = record_in manager trace manager.active

  unfoldable pub active_record : TrialManager F → ℕ → ℕ → NodeId → Option (StoredTrialRecord F)
  unfolding record_for_trial
  active_record manager created updated controller_node_id =
      option_map
        (λ trial. record_for_trial manager created updated trial controller_node_id active none)
        manager.active

  unfoldable pub evaluate : TrialManager F → Result ControllerError (TrialEvaluation F)
  unfolding evaluate_trial
  evaluate manager = elim manager.active [
    | none ↦ err no_active_trial
    | some trial ↦ ok (evaluate_trial trial manager.config manager.weights)
  ]

  abbrev pub completed_trial :
      MutationTrial F → TrialEvaluation F → StoredTrialRecord F → CompletedTrial F
  completed_trial trial evaluation stored = record {
    suggestion_id = trial.suggestion.id;
    base_genome_id = trial.base_genome_id;
    candidate_genome_id = trial.candidate_genome.id;
    candidate_genome = trial.candidate_genome;
    evaluation = evaluation;
    stored = stored;
  }

  -- `archive`, behind `self.active.take()`.
  unfoldable pub archive : TrialManager F → MutationTrial F → TrialManager F
  unfolding insert
  archive manager trial = record manager {
    active = none;
    archived = insert trial.suggestion.id trial manager.archived;
    routed_tasks = 0;
    consumed_tokens = 0;
    registered_candidate_workers = [];
    active_started_at = none;
    active_metadata = [];
  }

  -- What the three ends of a trial share, with the active trial as the last argument.
  unfoldable pub end_active :
      TrialManager F
      → ℕ
      → ℕ
      → NodeId
      → StoredTrialStatus
      → Option StoredTrialDecision
      → Option (MutationTrial F)
      → Result ControllerError (CompletedTrial F) × TrialManager F
  unfolding record_for_trial archive evaluate_trial
  end_active manager created updated controller_node_id status decision none =
      (err no_active_trial, manager)
  end_active manager created updated controller_node_id status decision (some trial) = (
    ok (
        completed_trial trial (evaluate_trial trial manager.config manager.weights)
          (record_for_trial manager created updated trial controller_node_id status decision)),
    archive manager trial,
  )

  unfoldable pub promote_active :
      TrialManager F → ℕ → ℕ → NodeId → Result ControllerError (CompletedTrial F) × TrialManager F
  unfolding end_active
  promote_active manager created updated controller_node_id =
      end_active manager created updated controller_node_id promoted
        (some StoredTrialDecision.promote) manager.active

  unfoldable pub prune_active :
      TrialManager F → ℕ → ℕ → NodeId → Result ControllerError (CompletedTrial F) × TrialManager F
  unfolding end_active
  prune_active manager created updated controller_node_id =
      end_active manager created updated controller_node_id pruned (some StoredTrialDecision.prune)
        manager.active

  -- With the active trial as the last argument. Without one the metadata stay as they are.
  unfoldable pub freeze_in :
      TrialManager F
      → ℕ
      → ℕ
      → NodeId
      → String
      → Option (MutationTrial F)
      → Result ControllerError (CompletedTrial F) × TrialManager F
  unfolding end_active insert
  freeze_in manager created updated controller_node_id reason none = (err no_active_trial, manager)
  freeze_in manager created updated controller_node_id reason (some trial) =
      end_active
        (record manager { active_metadata = insert "freeze_reason" reason manager.active_metadata })
        created updated controller_node_id frozen none (some trial)

  unfoldable pub freeze_active :
      TrialManager F
      → ℕ
      → ℕ
      → NodeId
      → String
      → Result ControllerError (CompletedTrial F) × TrialManager F
  unfolding freeze_in
  freeze_active manager created updated controller_node_id reason =
      freeze_in manager created updated controller_node_id reason manager.active
