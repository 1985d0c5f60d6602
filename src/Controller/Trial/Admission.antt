-- ===== src/Controller/Trial/Admission.antt =====
-- Which tasks a trial gets (crates/vsm-controller/src/trial.rs): what the limits and the exposure policy
-- demand together, and where the routes lead.
use vsm_agent_kernel.Base.{◌≡◌, Bool, true, false, is_empty, string_key, arith, and-left, and-right}
use vsm_agent_kernel.Base.TreeMap.{get}
use vsm_agent_kernel.Core.Task.{TaskPacket}
use vsm_agent_kernel.Controller.Trial.Exposure.{
  is_high_risk, is_shadow_mode, mode_passes, within_share, task_passes_exposure_policy,
}
use vsm_agent_kernel.Controller.Trial.Manager.{
  TrialManager, under_limit, class_ok, class_listed, limits_ok, task_has_trial_approval,
  task_passes_safety_limits,
}
use vsm_agent_kernel.Runtime.Trial.{MutationTrial}

-- What a task that a trial takes over has to fulfil.
pub record Admitted {F : Type 0} (manager : TrialManager F) (task : TaskPacket)
    (trial : MutationTrial F) : Type 0 where
  pub controls : is_shadow_mode trial.suggestion.trial_mode ≡ false
  pub approval :
      trial.suggestion.safety_limits.requires_approval ≡ true
      → task_has_trial_approval task trial.suggestion.id ≡ true
  pub tasks_left : under_limit trial.suggestion.safety_limits.max_tasks manager.routed_tasks ≡ true
  pub tokens_left :
      under_limit trial.suggestion.safety_limits.max_token_budget manager.consumed_tokens ≡ true
  pub class_allowed :
      is_empty trial.suggestion.safety_limits.allowed_task_classes ≡ false
      → class_listed trial.suggestion.safety_limits.allowed_task_classes
          (get "task_class" task.metadata)
        ≡ true
  pub risk_approved :
      is_high_risk task.risk ≡ true → task_has_trial_approval task trial.suggestion.id ≡ true
  pub exposed :
      task_has_trial_approval task trial.suggestion.id ≡ false
      → mode_passes trial.suggestion.trial_mode (
          within_share task trial.suggestion.id
            trial.suggestion.safety_limits.max_traffic_share_basis_points)
        ≡ true

module _ {F : Type 0} (manager : TrialManager F) (task : TaskPacket) (trial : MutationTrial F) where
  abbrev approved : Bool
  approved = task_has_trial_approval task trial.suggestion.id

  within_limits :
      task_passes_safety_limits manager task trial ≡ true
      → limits_ok manager task trial.suggestion.safety_limits approved ≡ true
  unfolding task_passes_safety_limits
  within_limits h = and-left _ _ h

  within_policy :
      task_passes_safety_limits manager task trial ≡ true
      → task_passes_exposure_policy task trial approved ≡ true
  unfolding task_passes_safety_limits
  within_policy h = and-right _ _ h

  pub task_passes_safety_limits-Admitted :
      task_passes_safety_limits manager task trial ≡ true → Admitted manager task trial
  unfolding limits_ok class_ok task_passes_exposure_policy
  task_passes_safety_limits-Admitted h =
      let limits = within_limits h in
      let policy = within_policy h in
      record {
        controls = ground arith;
        approval = λ e. ground arith;
        tasks_left = ground arith;
        tokens_left = ground arith;
        class_allowed = λ e. ground arith;
        risk_approved = λ e. ground arith;
        exposed = λ e. ground arith;
      }
