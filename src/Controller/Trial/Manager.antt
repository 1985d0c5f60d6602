-- ===== src/Controller/Trial/Manager.antt =====
-- `TrialManager` of crates/vsm-controller/src/trial.rs: the one active trial of a controller, the limits
-- under which a task is admitted to it, and the routes through its candidate genome.
use Prim.Native.String.{◌++◌ as append_text}
use vsm_agent_kernel.Base.{
  ℕ, String, Bool, true, false, not, ◌&&◌, ◌||◌, Option, none, some, List, any, contains, is_empty,
  string_key, ◌==◌, ltb, leb, if◌then◌else◌,
}
use vsm_agent_kernel.Base.Bytes.{parse_u32}
use vsm_agent_kernel.Base.Results.{Result, ok, ◌>>=◌, map_err}
use vsm_agent_kernel.Base.TreeMap.{TreeMap, get, option_map}
use vsm_agent_kernel.Core.Id.{NodeId, GenomeId, SuggestionId}
use vsm_agent_kernel.Core.Fitness.{FitnessWeights}
use vsm_agent_kernel.Core.Node.{ViableNode}
use vsm_agent_kernel.Core.Genome.{get_node}
use vsm_agent_kernel.Core.Suggestion.{TrialMode, TrialSafetyLimits, shadow}
use vsm_agent_kernel.Core.Task.{TaskPacket}
use vsm_agent_kernel.Controller.Error.{ControllerError, genome}
use vsm_agent_kernel.Controller.Router.{TaskRouter, RoutingDecision, choose_child}
use vsm_agent_kernel.Controller.Trial.Exposure.{
  is_shadow_mode, deterministic_exposure_bucket, task_passes_exposure_policy,
  task_passes_shadow_exposure_policy,
}
use vsm_agent_kernel.Runtime.Trial.{MutationTrial, TrialConfig}

pub record TrialManager (F : Type 0) : Type 0 where
  pub config : TrialConfig F
  pub weights : FitnessWeights F
  pub active : Option (MutationTrial F)
  pub archived : TreeMap String (MutationTrial F)
  pub registered_candidate_workers : List NodeId
  pub routed_tasks : ℕ
  pub consumed_tokens : ℕ
  pub active_started_at : Option ℕ
  pub active_metadata : TreeMap String String

pub record TrialRouteDecision : Type 0 where
  pub child_id : NodeId
  pub reason : String
  pub genome_id : GenomeId
  pub suggestion_id : SuggestionId
  pub trial_mode : TrialMode
  pub exposure_basis_points : Option ℕ
  pub exposure_bucket : Option ℕ
  pub is_shadow : Bool

-- `value == "true" || value == suggestion_id`, false without the entry.
unfoldable pub approves : Option String → SuggestionId → Bool
approves none suggestion_id = false
approves (some value) suggestion_id = (value == "true") || (value == suggestion_id)

unfoldable pub task_has_trial_approval : TaskPacket → SuggestionId → Bool
unfolding approves
task_has_trial_approval task suggestion_id =
    approves (get "trial_approved" task.metadata) suggestion_id

-- A count that has not reached its maximum, where there is one.
unfoldable pub under_limit : Option ℕ → ℕ → Bool
under_limit none used = true
under_limit (some maximum) used = not (leb maximum used)

-- `.and_then(|value| value.parse::<u32>().ok())`.
unfoldable pub estimated_files : Option String → Option ℕ
unfolding parse_u32
estimated_files none = none
estimated_files (some value) = parse_u32 value

unfoldable pub files_ok : Option ℕ → Option ℕ → Bool
files_ok none estimated = true
files_ok (some maximum) none = true
files_ok (some maximum) (some estimated) = not (ltb maximum estimated)

unfoldable pub class_listed : List String → Option String → Bool
class_listed allowed none = false
class_listed allowed (some task_class) = any (λ a. a == task_class) allowed

unfoldable pub class_ok : List String → Option String → Bool
unfolding class_listed
class_ok allowed task_class = is_empty allowed || class_listed allowed task_class

module _ {F : Type 0} where
  -- The tests that both kinds of route make before the exposure policy.
  unfoldable pub limits_ok : TrialManager F → TaskPacket → TrialSafetyLimits → Bool → Bool
  unfolding under_limit files_ok estimated_files class_ok
  limits_ok manager task limits approved =
      if limits.requires_approval && not approved
      then false
      else if not (under_limit limits.max_tasks manager.routed_tasks)
      then false
      else if not (under_limit limits.max_token_budget manager.consumed_tokens)
      then false
      else if not (
          files_ok limits.max_files_touched
            (estimated_files (get "estimated_files_touched" task.metadata)))
      then false
      else class_ok limits.allowed_task_classes (get "task_class" task.metadata)

  unfoldable pub task_passes_safety_limits : TrialManager F → TaskPacket → MutationTrial F → Bool
  unfolding limits_ok task_has_trial_approval task_passes_exposure_policy
  task_passes_safety_limits manager task trial =
      let approved = task_has_trial_approval task trial.suggestion.id in
      limits_ok manager task trial.suggestion.safety_limits approved
      && task_passes_exposure_policy task trial approved

  unfoldable pub task_passes_shadow_safety_limits :
      TrialManager F → TaskPacket → MutationTrial F → Bool
  unfolding limits_ok task_has_trial_approval task_passes_shadow_exposure_policy
  task_passes_shadow_safety_limits manager task trial =
      let approved = task_has_trial_approval task trial.suggestion.id in
      limits_ok manager task trial.suggestion.safety_limits approved
      && task_passes_shadow_exposure_policy task trial approved

  -- The decision for the child that the router chose.
  unfoldable pub trial_decision :
      TaskPacket
      → MutationTrial F
      → Bool
      → String
      → TrialMode
      → RoutingDecision
      → TrialRouteDecision
  unfolding deterministic_exposure_bucket
  trial_decision task trial is_shadow prefix mode decision = record {
    child_id = decision.child_id;
    reason =
        append_text prefix (append_text trial.suggestion.id (append_text ": " decision.reason));
    genome_id = trial.candidate_genome.id;
    suggestion_id = trial.suggestion.id;
    trial_mode = mode;
    exposure_basis_points = trial.suggestion.safety_limits.max_traffic_share_basis_points;
    exposure_bucket =
        option_map (λ _. deterministic_exposure_bucket task trial.suggestion.id)
          trial.suggestion.safety_limits.max_traffic_share_basis_points;
    is_shadow = is_shadow;
  }

  -- The choice among the children of the controller's node in the candidate, which counts only if the
  -- child has a registered worker.
  unfoldable pub route_from :
      TrialManager F
      → TaskRouter
      → TaskPacket
      → MutationTrial F
      → (RoutingDecision → TrialRouteDecision)
      → ViableNode
      → Result ControllerError (Option TrialRouteDecision)
  unfolding choose_child
  route_from manager router task trial decide parent =
      if is_empty parent.children
      then ok none
      else choose_child router trial.candidate_genome parent task >>= λ decision.
          if not (contains manager.registered_candidate_workers decision.child_id)
          then ok none
          else ok (some (decide decision))

  unfoldable pub route_in_candidate :
      TrialManager F
      → TaskRouter
      → NodeId
      → TaskPacket
      → MutationTrial F
      → (RoutingDecision → TrialRouteDecision)
      → Result ControllerError (Option TrialRouteDecision)
  unfolding route_from get_node
  route_in_candidate manager router controller_node_id task trial decide =
      map_err genome (get_node trial.candidate_genome controller_node_id)
      >>= route_from manager router task trial decide

  unfoldable pub choose_for_trial :
      TrialManager F
      → TaskRouter
      → NodeId
      → TaskPacket
      → Option (MutationTrial F)
      → Result ControllerError (Option TrialRouteDecision)
  unfolding task_passes_safety_limits route_in_candidate trial_decision
  choose_for_trial manager router controller_node_id task none = ok none
  choose_for_trial manager router controller_node_id task (some trial) =
      if not (task_passes_safety_limits manager task trial)
      then ok none
      else route_in_candidate manager router controller_node_id task trial
          (trial_decision task trial false "trial " trial.suggestion.trial_mode)

  unfoldable pub choose_trial_route :
      TrialManager F
      → TaskRouter
      → NodeId
      → TaskPacket
      → Result ControllerError (Option TrialRouteDecision)
  unfolding choose_for_trial
  choose_trial_route manager router controller_node_id task =
      choose_for_trial manager router controller_node_id task manager.active

  unfoldable pub choose_for_shadow :
      TrialManager F
      → TaskRouter
      → NodeId
      → TaskPacket
      → Option (MutationTrial F)
      → Result ControllerError (Option TrialRouteDecision)
  unfolding is_shadow_mode task_passes_shadow_safety_limits route_in_candidate trial_decision
  choose_for_shadow manager router controller_node_id task none = ok none
  choose_for_shadow manager router controller_node_id task (some trial) =
      if not (is_shadow_mode trial.suggestion.trial_mode)
      then ok none
      else if not (task_passes_shadow_safety_limits manager task trial)
      then ok none
      else route_in_candidate manager router controller_node_id task trial
          (trial_decision task trial true "shadow trial " shadow)

  unfoldable pub choose_shadow_route :
      TrialManager F
      → TaskRouter
      → NodeId
      → TaskPacket
      → Result ControllerError (Option TrialRouteDecision)
  unfolding choose_for_shadow
  choose_shadow_route manager router controller_node_id task =
      choose_for_shadow manager router controller_node_id task manager.active
