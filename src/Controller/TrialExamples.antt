-- ===== src/Controller/TrialExamples.antt =====
-- Trials at concrete inputs.
use vsm_agent_kernel.Base.{
  ℕ, ◌≡◌, refl, true, false, none, some, [], ◌∷◌, contains, string_key, arith,
}
use vsm_agent_kernel.Base.Results.{ok, err}
use vsm_agent_kernel.Base.TreeMap.{get, insert, modify}
use vsm_agent_kernel.Core.Fixtures.{two, two-Within}
use vsm_agent_kernel.Core.Genome.{new, add_child}
use vsm_agent_kernel.Core.Node.{is_metasystem}
use vsm_agent_kernel.Core.Patch.{remove_subtree_patch}
use vsm_agent_kernel.Core.Suggestion.{GeneSuggestion, new_suggestion, algedonic_signal}
use vsm_agent_kernel.Core.Task.{TaskPacket, new_task}
use vsm_agent_kernel.Controller.Router.{
  TaskRouter, direct_child_first_eligible, is_retired, code_ok, requires_code_write, required_ok,
}
use vsm_agent_kernel.Controller.Trial.Exposure.{within_share}
use vsm_agent_kernel.Controller.Trial.Exposure.Laws.{within_share_monotone}
use vsm_agent_kernel.Controller.Trial.Manager.{
  TrialManager, TrialRouteDecision, task_passes_safety_limits, choose_trial_route,
}
use vsm_agent_kernel.Controller.Trial.Admission.{Admitted, task_passes_safety_limits-Admitted}
use vsm_agent_kernel.Controller.Error.{trial_already_active}
use vsm_agent_kernel.Controller.Trial.Lifecycle.{
  StartedTrial, activate_queued_trial, restore_active_trial, tag_task_for_trial,
  task_trial_suggestion_id,
}
use vsm_agent_kernel.Controller.Trial.Lifecycle.Restart.{
  restore-activate, task_trial_suggestion_id-tag_task_for_trial,
}
use vsm_agent_kernel.Ledger.Trial.{StoredTrialRecord, queued_record}
use vsm_agent_kernel.Controller.Trial.Route.{IsTrialRoute, choose_trial_route-IsTrialRoute}
use vsm_agent_kernel.Runtime.Trial.{MutationTrial, restore}

abbrev suggestion : GeneSuggestion
suggestion = new_suggestion "s" "r" "r" algedonic_signal (remove_subtree_patch "x") "smaller"

abbrev trial : MutationTrial ℕ
trial = restore suggestion "g" two.genome []

abbrev manager : TrialManager ℕ
manager = record {
  config = record { min_tasks_before_decision = 10; promote_margin = 1; prune_below = 0 };
  weights = record {
    accepted_merge_value = 10;
    failed_task_penalty = 5;
    reverted_penalty = 30;
    regression_penalty = 25;
    human_override_penalty = 20;
    token_cost_weight = 0;
    latency_ms_weight = 0;
    line_delta_weight = 0;
    coordination_message_weight = 0;
    org_complexity_weight = 0;
  };
  active = some trial;
  archived = [];
  registered_candidate_workers = "c" ∷ [];
  routed_tasks = 0;
  consumed_tokens = 0;
  active_started_at = none;
  active_metadata = [];
}

abbrev approved_task : TaskPacket
approved_task = record (new_task "t" "fix" "fix it") { metadata = ("trial_approved", "true") ∷ [] }

abbrev router : TaskRouter
router = record { strategy = direct_child_first_eligible }

admitted : task_passes_safety_limits manager approved_task trial ≡ true
unfolding task_passes_safety_limits get
admitted = refl

abbrev chosen : TrialRouteDecision
chosen = record {
  child_id = "c";
  reason = "trial s: first direct leaf child with required capabilities";
  genome_id = "g";
  suggestion_id = "s";
  trial_mode = suggestion.trial_mode;
  exposure_basis_points = none;
  exposure_bucket = none;
  is_shadow = false;
}

routed : choose_trial_route manager router "r" approved_task ≡ ok (some chosen)
unfolding choose_trial_route get add_child new insert modify is_retired is_metasystem code_ok
    requires_code_write required_ok contains
routed = refl

task_passes_safety_limits-Admitted_example : Admitted manager approved_task trial
task_passes_safety_limits-Admitted_example =
    task_passes_safety_limits-Admitted manager approved_task trial admitted

choose_trial_route-IsTrialRoute_example : IsTrialRoute manager "r" approved_task trial chosen
choose_trial_route-IsTrialRoute_example =
    choose_trial_route-IsTrialRoute manager router "r" approved_task trial chosen refl two-Within.0
      routed

shown_to_most : within_share approved_task "s" (some 9999) ≡ true
unfolding within_share
shown_to_most = refl

within_share_monotone_example : within_share approved_task "s" (some 10000) ≡ true
within_share_monotone_example =
    within_share_monotone approved_task "s" 9999 10000 (omega arith) shown_to_most

abbrev idle : TrialManager ℕ
idle = record manager { active = none; routed_tasks = 7 }

abbrev waiting : StoredTrialRecord ℕ
waiting = record (queued_record 0 5 "r" "g" "g" suggestion) {
  registered_candidate_workers = "c" ∷ "b" ∷ "c" ∷ [];
}

restore-activate_example :
    (started : StartedTrial ℕ) × (after : TrialManager ℕ) × (activate_queued_trial 0 8 idle waiting
        two.genome
      ≡ (ok started, after))
    × (restore_active_trial idle started.stored two.genome [] ≡ (ok started, after))
    × (activate_queued_trial 0 8 after waiting two.genome
        ≡ (err (trial_already_active waiting.suggestion.id), after))
restore-activate_example = restore-activate 0 8 idle waiting two.genome refl refl

task_trial_suggestion_id-tag_task_for_trial_example :
    task_trial_suggestion_id (tag_task_for_trial approved_task "s" "g") ≡ some "s"
task_trial_suggestion_id-tag_task_for_trial_example =
    task_trial_suggestion_id-tag_task_for_trial approved_task "s" "g"
