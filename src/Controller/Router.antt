-- ===== src/Controller/Router.antt =====
-- crates/vsm-controller/src/router.rs: which direct child a task goes to.
pub mod Gate
pub mod Search
pub mod Choice
use Prim.Native.String.{◌++◌ as append_text}
use vsm_agent_kernel.Base.{
  String, ◌≡◌, Bool, true, false, not, ◌&&◌, ◌||◌, Option, none, some, List, [], ◌∷◌, any, contains,
  is_empty, string_key, ◌==◌, if◌then◌else◌,
}
use vsm_agent_kernel.Base.Results.{Result, ok, err, ◌>>=◌}
use vsm_agent_kernel.Base.TreeMap.{get}
use vsm_agent_kernel.Core.Id.{NodeId}
use vsm_agent_kernel.Core.Capability.{CapabilitySet}
use vsm_agent_kernel.Core.Node.{
  ViableNode, NodeLifecycleStatus, retired, capabilities, is_metasystem,
}
use vsm_agent_kernel.Core.Genome.{OrganizationalGenome, GenomeError, node_not_found, get_node}
use vsm_agent_kernel.Core.Task.{TaskPacket}
use vsm_agent_kernel.Controller.Error.{ControllerError, genome, not_metasystem, no_routeable_child}

pub record RoutingDecision : Type 0 where
  pub child_id : NodeId
  pub reason : String

-- `child.status == NodeLifecycleStatus::Retired`.
unfoldable pub is_retired : NodeLifecycleStatus → Bool
is_retired retired = true
is_retired _ = false

unfoldable pub capability_allowed : String → CapabilitySet → Bool
capability_allowed capability capabilities =
    if capability == "write_code"
    then capabilities.can_write_code
    else if capability == "run_tests"
    then capabilities.can_run_tests
    else if capability == "review"
    then capabilities.can_review
    else if capability == "research"
    then capabilities.can_research
    else if capability == "integrate"
    then capabilities.can_integrate
    else if capability == "read_filesystem"
    then capabilities.can_read_filesystem
    else if capability == "write_filesystem"
    then capabilities.can_write_filesystem
    else true

-- The explicit assignment, if it names a direct child.
pub assigned_child : ViableNode → Option NodeId → Option RoutingDecision
assigned_child parent none = none
assigned_child parent (some assigned_to) =
    if any (λ child_id. child_id == assigned_to) parent.children
    then some (record { child_id = assigned_to; reason = "task already assigned to direct child" })
    else none

-- The loop over the children for the metadata `target_child`.
target_loop :
    OrganizationalGenome → String → List NodeId → Result ControllerError (Option RoutingDecision)
unfolding get_node
target_loop g target [] = ok none
target_loop g target (child_id ∷ rest) =
    let others = target_loop g target rest in
    elim (get_node g child_id) [
      | err e ↦ err (genome e)
      | ok child ↦
          if child.id == target || child.name == target
          then ok (
              some (record {
                child_id = child.id;
                reason = append_text "matched target_child metadata: " target;
              }))
          else others
    ]

unfoldable pub requires_code_write : TaskPacket → Bool
requires_code_write task = elim (get "requires_code_write" task.metadata) [
  | none ↦ false
  | some value ↦ value == "true"
]

unfoldable pub required_ok : TaskPacket → CapabilitySet → Bool
required_ok task capabilities = elim (get "required_capability" task.metadata) [
  | none ↦ true
  | some capability ↦ capability_allowed capability capabilities
]

unfoldable pub code_ok : TaskPacket → CapabilitySet → Bool
code_ok task capabilities = not (requires_code_write task) || capabilities.can_write_code

-- The loop over the children for the first eligible one.
pub eligible_loop :
    OrganizationalGenome
    → ViableNode
    → TaskPacket
    → List NodeId
    → Result ControllerError RoutingDecision
unfolding get_node
eligible_loop g parent task [] = err (no_routeable_child parent.id task.title)
eligible_loop g parent task (child_id ∷ rest) =
    let others = eligible_loop g parent task rest in
    elim (get_node g child_id) [
      | err e ↦ err (genome e)
      | ok child ↦
          if is_retired child.status
          then others
          else if is_metasystem child
          then ok (record {
            child_id = child.id;
            reason = "direct child is a metasystem capable of further delegation";
          })
          else if code_ok task (capabilities child) && required_ok task (capabilities child)
          then ok (record {
            child_id = child.id;
            reason = "first direct leaf child with required capabilities";
          })
          else others
    ]

-- The metadata target, and the search where there is none or it names no child.
by_target :
    OrganizationalGenome
    → ViableNode
    → TaskPacket
    → Option String
    → Result ControllerError RoutingDecision
unfolding target_loop eligible_loop
by_target g parent task none = eligible_loop g parent task parent.children
by_target g parent task (some target) = target_loop g target parent.children >>= λ found.
    elim found [ some decision ↦ ok decision | none ↦ eligible_loop g parent task parent.children ]

unfoldable pub choose_direct_child :
    OrganizationalGenome → ViableNode → TaskPacket → Result ControllerError RoutingDecision
unfolding assigned_child by_target
choose_direct_child g parent task =
    if is_empty parent.children
    then err (not_metasystem parent.id)
    else elim (assigned_child parent task.assigned_to) [
      | some decision ↦ ok decision
      | none ↦ by_target g parent task (get "target_child" task.metadata)
    ]

pub data RoutingStrategy : Type 0 where
  direct_child_first_eligible : RoutingStrategy

-- `TaskRouter` has its strategy as its one field.
pub record TaskRouter : Type 0 where
  pub strategy : RoutingStrategy

unfoldable pub choose_by_strategy :
    RoutingStrategy
    → OrganizationalGenome
    → ViableNode
    → TaskPacket
    → Result ControllerError RoutingDecision
unfolding choose_direct_child
choose_by_strategy direct_child_first_eligible g parent task = choose_direct_child g parent task

unfoldable pub choose_child :
    TaskRouter
    → OrganizationalGenome
    → ViableNode
    → TaskPacket
    → Result ControllerError RoutingDecision
unfolding choose_by_strategy
choose_child router g parent task = choose_by_strategy router.strategy g parent task
