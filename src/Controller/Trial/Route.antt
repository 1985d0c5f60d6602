-- ===== src/Controller/Trial/Route.antt =====
-- Where the routes of a trial (crates/vsm-controller/src/trial.rs, `choose_trial_route`) lead.
use vsm_agent_kernel.Base.{
  ◌≡◌, refl, sym, subst, true, false, not, none, some, contains, is_empty, string_key, arith,
  Bool-cases, Option-cases, inl, inr, if◌then◌else◌,
}
use vsm_agent_kernel.Base.Results.{Result, ok, err, ◌>>=◌}
use vsm_agent_kernel.Base.TreeMap.{get}
use vsm_agent_kernel.Core.Id.{NodeId}
use vsm_agent_kernel.Core.Task.{TaskPacket}
use vsm_agent_kernel.Core.Node.{ViableNode}
use vsm_agent_kernel.Core.Genome.{OrganizationalGenome, get_node}
use vsm_agent_kernel.Core.Genome.Tree.{Holds, IsTree}
use vsm_agent_kernel.Controller.Error.{ControllerError}
use vsm_agent_kernel.Controller.Router.{
  TaskRouter, RoutingStrategy, RoutingDecision, direct_child_first_eligible, choose_by_strategy,
  choose_child, choose_direct_child,
}
use vsm_agent_kernel.Controller.Router.Choice.{choose_direct_child-direct}
use vsm_agent_kernel.Controller.Trial.Admission.{Admitted, task_passes_safety_limits-Admitted}
use vsm_agent_kernel.Controller.Trial.Manager.{
  TrialManager, TrialRouteDecision, task_passes_safety_limits, route_from, route_in_candidate,
  trial_decision, choose_for_trial, choose_trial_route,
}
use vsm_agent_kernel.Runtime.Trial.{MutationTrial}

by_strategy :
    (s : RoutingStrategy) (g : OrganizationalGenome) (parent : ViableNode) (task : TaskPacket)
    → choose_by_strategy s g parent task ≡ choose_direct_child g parent task
unfolding choose_by_strategy
by_strategy direct_child_first_eligible g parent task = refl

module _ {F : Type 0} (manager : TrialManager F) (router : TaskRouter) (controller : NodeId)
    (task : TaskPacket) (trial : MutationTrial F)
    (decide : RoutingDecision → TrialRouteDecision) where
  -- The child that the router chose, for a route that was found.
  abbrev Found : ViableNode → TrialRouteDecision → Type 0
  Found parent d =
      (decision : RoutingDecision) × (choose_direct_child trial.candidate_genome parent task
        ≡ ok decision)
      × (contains manager.registered_candidate_workers decision.child_id ≡ true)
      × (d ≡ decide decision)

  after_choice :
      (parent : ViableNode) (d : TrialRouteDecision) (r : Result ControllerError RoutingDecision)
      → choose_direct_child trial.candidate_genome parent task ≡ r
      → (r >>= λ decision.
          if not (contains manager.registered_candidate_workers decision.child_id)
          then ok none
          else ok (some (decide decision)))
        ≡ ok (some d)
      → Found parent d
  after_choice parent d (err e) p h = absurd (ground arith)
  after_choice parent d (ok decision) p h = (decision, p, ground arith, ground arith)

  Found-from :
      (parent : ViableNode) (d : TrialRouteDecision)
      → route_from manager router task trial decide parent ≡ ok (some d)
      → Found parent d
  unfolding route_from choose_child
  Found-from parent d h = elim (Bool-cases (is_empty parent.children)) [
    | inl e ↦ absurd (ground arith)
    | inr e ↦
        after_choice parent d
          (choose_by_strategy router.strategy trial.candidate_genome parent task)
          (sym (by_strategy router.strategy trial.candidate_genome parent task)) (ground arith)
  ]

  Found-in :
      (d : TrialRouteDecision)
      → route_in_candidate manager router controller task trial decide ≡ ok (some d)
      → (parent : ViableNode) × Holds trial.candidate_genome controller parent × Found parent d
  unfolding route_in_candidate get_node
  Found-in d h = elim (Option-cases (get controller trial.candidate_genome.nodes)) [
    | inl e ↦ absurd (ground arith)
    | inr (parent, e) ↦ (parent, e, Found-from parent d (ground arith))
  ]

-- The decision for an active trial.
pub record IsTrialRoute {F : Type 0} (manager : TrialManager F) (controller : NodeId)
    (task : TaskPacket) (trial : MutationTrial F) (d : TrialRouteDecision) : Type 0 where
  pub admitted : Admitted manager task trial
  pub parent : ViableNode
  pub held : Holds trial.candidate_genome controller parent
  pub direct_child : contains parent.children d.child_id ≡ true
  pub registered : contains manager.registered_candidate_workers d.child_id ≡ true
  pub in_candidate : d.genome_id ≡ trial.candidate_genome.id
  pub for_suggestion : d.suggestion_id ≡ trial.suggestion.id
  pub in_control : d.is_shadow ≡ false

-- If the candidate genome of the active trial is a tree, a route that is chosen for a task leads to a
-- registered worker that is a direct child of the controller's node in the candidate, and the task is
-- admitted to the trial.
pub choose_trial_route-IsTrialRoute :
    {F : Type 0} (manager : TrialManager F) (router : TaskRouter) (controller : NodeId)
    (task : TaskPacket) (trial : MutationTrial F) (d : TrialRouteDecision)
    → manager.active ≡ some trial
    → IsTree trial.candidate_genome
    → choose_trial_route manager router controller task ≡ ok (some d)
    → IsTrialRoute manager controller task trial d
unfolding choose_trial_route choose_for_trial trial_decision
choose_trial_route-IsTrialRoute manager router controller task trial d active tree h =
    let chosen =
      subst (λ o. choose_for_trial manager router controller task o ≡ ok (some d)) active h in
    elim (Bool-cases (task_passes_safety_limits manager task trial)) [
      | inr e ↦ absurd (ground arith)
      | inl e ↦
          let (parent, held, (decision, chose, registered, same)) =
            Found-in manager router controller task trial
              (trial_decision task trial false "trial " trial.suggestion.trial_mode) d
              (ground arith) in
          record {
            admitted = task_passes_safety_limits-Admitted manager task trial e;
            parent = parent;
            held = held;
            direct_child =
                rw same (
                  choose_direct_child-direct trial.candidate_genome parent task decision tree
                    chose);
            registered = rw same registered;
            in_candidate = rw same refl;
            for_suggestion = rw same refl;
            in_control = rw same refl;
          }
    ]
