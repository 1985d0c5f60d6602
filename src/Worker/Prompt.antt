-- ===== src/Worker/Prompt.antt =====
-- crates/vsm-worker/src/prompt.rs: the request that a worker makes of a node and a task. The `{:?}` of a vector of
-- strings and of capabilities, and `serde_json::to_string_pretty`, are arguments.
use Prim.Native.String.{◌++◌ as append_text}
use vsm_agent_kernel.Base.{
  String, Option, none, some, List, [], ◌∷◌, is_empty, retain, string_key, if◌then◌else◌,
}
use vsm_agent_kernel.Base.TreeMap.{insert}
use vsm_agent_kernel.Core.Capability.{CapabilitySet}
use vsm_agent_kernel.Core.Node.{ViableNode, PromptComponent, capabilities}
use vsm_agent_kernel.Core.Task.{TaskPacket}
use vsm_agent_kernel.Worker.Model.{ModelRequest}

-- The texts one after the other, as a run of `push_str` leaves them.
unfoldable pub concat : List String → String
concat [] = ""
concat (s ∷ ss) = append_text s (concat ss)

-- A line `- item` for each.
unfoldable pub bullets : List String → String
bullets [] = ""
bullets (s ∷ ss) = append_text "- " (append_text s (append_text "\n" (bullets ss)))

abbrev pub text_of : List PromptComponent → List String
text_of [] = []
text_of (c ∷ cs) = c.text ∷ text_of cs

-- A heading with a line for each, nothing if there are none.
unfoldable pub listed : String → List String → String
unfolding bullets
listed heading items = if is_empty items then "" else append_text heading (bullets items)

unfoldable pub append_section : String → List PromptComponent → String
unfolding listed retain
append_section title components =
    listed (append_text "\n# " (append_text title "\n"))
      (text_of (retain (λ c. c.active) components))

abbrev pub default_contract : String
default_contract =
    "\n# Output contract\nReturn a concise execution summary. If you produce a patch, include it as a unified diff in the response.\n"

unfoldable pub output_contract : Option PromptComponent → String
output_contract none = default_contract
output_contract (some component) =
    if component.active
    then append_text "\n# Output contract\n" (append_text component.text "\n")
    else default_contract

module _ (debug_texts : List String → String) (debug_capabilities : CapabilitySet → String) where
  unfoldable pub build_instructions : ViableNode → String
  unfolding concat listed append_section output_contract capabilities
  build_instructions node = concat (
      "You are an operational leaf in a recursive Viable System Model coding organization.\n"
      ∷ "You must operate only within the runtime capabilities and permissions granted to this node.\n\n"
      ∷ "# Node identity\n"
      ∷ append_text "Node name: " (append_text node.name "\n")
      ∷ append_text "System 5 identity: " (append_text node.system_5.identity "\n")
      ∷ listed "Values:\n" node.system_5.values
      ∷ listed "\nNon-negotiable constraints:\n" node.system_5.non_negotiable_constraints
      ∷ "\n# Runtime capabilities\n"
      ∷ append_text (debug_capabilities (capabilities node)) "\n"
      ∷ "\n# Permissions\n"
      ∷ append_text "Allowed paths: "
          (append_text (debug_texts node.permissions.allowed_paths) "\n")
      ∷ append_text "Denied paths: " (append_text (debug_texts node.permissions.denied_paths) "\n")
      ∷ append_text "Allowed tools: "
          (append_text (debug_texts node.permissions.allowed_tools) "\n")
      ∷ append_text "Denied tools: " (append_text (debug_texts node.permissions.denied_tools) "\n")
      ∷ append_section "Behavior rules" node.prompt.behavior_rules
      ∷ append_section "Domain hints" node.prompt.domain_hints
      ∷ append_section "Codebase conventions" node.prompt.codebase_conventions
      ∷ append_section "Negative constraints" node.prompt.negative_constraints
      ∷ output_contract node.prompt.output_contract
      ∷ [])

  module _ (pretty : TaskPacket → Option String) where
    unfoldable pub build_task_input : TaskPacket → String
    unfolding concat
    build_task_input task = elim (pretty task) [
      | some text ↦ text
      | none ↦ concat (
          "Task: "
          ∷ task.title
          ∷ "\nGoal: "
          ∷ task.goal
          ∷ "\nScope: "
          ∷ debug_texts task.scope
          ∷ "\nConstraints: "
          ∷ debug_texts task.constraints
          ∷ [])
    ]

    unfoldable pub build : ViableNode → TaskPacket → ModelRequest
    unfolding build_instructions build_task_input insert
    build node task = record {
      model = node.model;
      instructions = build_instructions node;
      input = build_task_input task;
      metadata =
          insert "task_id" task.id (insert "node_name" node.name (insert "node_id" node.id []));
    }
