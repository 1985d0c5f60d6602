-- ===== src/Worker/Examples.antt =====
-- The worker's gate at concrete nodes and tasks.
use vsm_agent_kernel.Base.{◌≡◌, ◌↔◌, refl, true, [], ◌∷◌, string_key}
use vsm_agent_kernel.Base.Results.{ok, err}
use vsm_agent_kernel.Core.Capability.{for_metasystem}
use vsm_agent_kernel.Core.Node.{ViableNode, capabilities, is_metasystem}
use vsm_agent_kernel.Core.Task.{TaskPacket, new_task}
use vsm_agent_kernel.Core.Fixtures.{root, coder}
use vsm_agent_kernel.Worker.Error.{not_executable_leaf}
use vsm_agent_kernel.Worker.Gate.{ensure_executable_leaf}
use vsm_agent_kernel.Worker.Gate.Passes.{
  MayExecute, ensure_executable_leaf_iff, metasystem_never_executes,
}

abbrev writing_task : TaskPacket
writing_task = record (new_task "t" "fix" "fix it") {
  metadata = ("required_capability", "run_tests") ∷ ("requires_code_write", "true") ∷ [];
}

abbrev busy_root : ViableNode
busy_root = record root { children = "c" ∷ [] }

busy_root_manages : is_metasystem busy_root ≡ true
unfolding is_metasystem
busy_root_manages = refl

ensure_executable_leaf_iff_example :
    (ensure_executable_leaf coder writing_task ≡ ok tt) ↔ MayExecute coder writing_task
ensure_executable_leaf_iff_example = ensure_executable_leaf_iff coder writing_task

metasystem_never_executes_example :
    (capabilities busy_root ≡ for_metasystem)
    × (ensure_executable_leaf busy_root writing_task ≡ err (not_executable_leaf "r"))
metasystem_never_executes_example =
    metasystem_never_executes busy_root writing_task busy_root_manages
