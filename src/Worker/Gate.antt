-- ===== src/Worker/Gate.antt =====
-- `ensure_executable_leaf` (crates/vsm-worker/src/harness.rs): the check that a worker makes before it
-- executes a task. It reads the state of the node and never its prompt.
pub mod Passes
use vsm_agent_kernel.Base.{
  String, ◌≡◌, Bool, true, false, not, Option, none, some, string_key, ◌==◌, if◌then◌else◌,
}
use vsm_agent_kernel.Base.Results.{Result, ok, err, ◌>>=◌}
use vsm_agent_kernel.Base.TreeMap.{get}
use vsm_agent_kernel.Core.Id.{NodeId}
use vsm_agent_kernel.Core.Capability.{CapabilitySet}
use vsm_agent_kernel.Core.Node.{ViableNode, is_leaf, capabilities}
use vsm_agent_kernel.Core.Task.{TaskPacket}
use vsm_agent_kernel.Worker.Error.{WorkerError, not_executable_leaf, capability_denied}

-- The `match` of `require_capability`.
unfoldable pub allowed : String → CapabilitySet → Bool
allowed capability capabilities =
    if capability == "write_code"
    then capabilities.can_write_code
    else if capability == "run_tests"
    then capabilities.can_run_tests
    else if capability == "review"
    then capabilities.can_review
    else if capability == "research"
    then capabilities.can_research
    else if capability == "integrate"
    then capabilities.can_integrate
    else if capability == "read_filesystem"
    then capabilities.can_read_filesystem
    else if capability == "write_filesystem"
    then capabilities.can_write_filesystem
    else true

unfoldable pub require_capability : NodeId → CapabilitySet → String → Result WorkerError (Unit {0})
require_capability node_id capabilities capability =
    if allowed capability capabilities then ok tt else err (capability_denied node_id capability)

-- `.map(|v| v == "true").unwrap_or(false)`.
unfoldable pub is_true : Option String → Bool
is_true none = false
is_true (some value) = value == "true"

unfoldable pub require_code_write : ViableNode → TaskPacket → Result WorkerError (Unit {0})
unfolding is_true require_capability
require_code_write node task =
    if is_true (get "requires_code_write" task.metadata)
    then require_capability node.id (capabilities node) "write_code"
    else ok tt

unfoldable pub require_named : ViableNode → Option String → Result WorkerError (Unit {0})
unfolding require_capability
require_named node none = ok tt
require_named node (some required) = require_capability node.id (capabilities node) required

unfoldable pub ensure_executable_leaf : ViableNode → TaskPacket → Result WorkerError (Unit {0})
ensure_executable_leaf node task =
    if not (is_leaf node)
    then err (not_executable_leaf node.id)
    else require_code_write node task >>= λ _.
        require_named node (get "required_capability" task.metadata)
