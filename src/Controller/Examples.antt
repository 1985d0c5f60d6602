-- ===== src/Controller/Examples.antt =====
-- The router at a concrete genome and a concrete task.
use vsm_agent_kernel.Base.{any, ◌≡◌, ◌⊎◌, refl, true, none, some, [], ◌∷◌, contains, string_key}
use vsm_agent_kernel.Base.Results.{ok, err}
use vsm_agent_kernel.Base.TreeMap.{get}
use vsm_agent_kernel.Core.Id.{NodeId}
use vsm_agent_kernel.Core.Node.{ViableNode}
use vsm_agent_kernel.Core.Genome.Tree.{Holds}
use vsm_agent_kernel.Core.Task.{TaskPacket, new_task}
use vsm_agent_kernel.Core.Fixtures.{root, two, two-Within, root_held}
use vsm_agent_kernel.Controller.Error.{no_routeable_child}
use vsm_agent_kernel.Controller.Router.{RoutingDecision, choose_direct_child}
use vsm_agent_kernel.Controller.Router.Gate.{Accepts}
use vsm_agent_kernel.Controller.Router.Choice.{
  choose_direct_child_search, choose_direct_child-direct,
}

abbrev busy_root : ViableNode
busy_root = record root { children = "c" ∷ [] }

abbrev free_task : TaskPacket
free_task = record (new_task "t" "fix" "fix it") { metadata = ("requires_code_write", "true") ∷ [] }

abbrev assigned_task : TaskPacket
assigned_task = record free_task { assigned_to = some "c" }

abbrev assigned_decision : RoutingDecision
assigned_decision = record { child_id = "c"; reason = "task already assigned to direct child" }

chooses_assigned : choose_direct_child two.genome busy_root assigned_task ≡ ok assigned_decision
unfolding choose_direct_child any
chooses_assigned = refl

untargeted : get "target_child" free_task.metadata ≡ none
unfolding get
untargeted = refl

choose_direct_child_search_example :
    ((d : RoutingDecision) × (choose_direct_child two.genome busy_root free_task ≡ ok d)
      × ((child_id : NodeId) × (child : ViableNode) × (contains busy_root.children child_id ≡ true)
          × Holds two.genome child_id child
          × (d.child_id ≡ child.id)
          × Accepts child free_task))
    ⊎ ((choose_direct_child two.genome busy_root free_task ≡ err (no_routeable_child "r" "fix"))
        × ((child_id : NodeId) (child : ViableNode)
            → contains busy_root.children child_id ≡ true
            → Holds two.genome child_id child
            → ¬ Accepts child free_task))
choose_direct_child_search_example =
    choose_direct_child_search two.genome "r" busy_root free_task two-Within.0 root_held refl refl
      untargeted

choose_direct_child-direct_example : contains busy_root.children "c" ≡ true
choose_direct_child-direct_example =
    choose_direct_child-direct two.genome busy_root assigned_task assigned_decision two-Within.0
      chooses_assigned
