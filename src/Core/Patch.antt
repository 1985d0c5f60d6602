-- ===== src/Core/Patch.antt =====
-- crates/vsm-core/src/patch.rs: structural mutations of a genome. A patch writes through `&mut`, so an
-- operation returns the genome also when it fails.
pub mod Keeps
pub mod Promotion
pub mod Batches
pub mod Shape
pub mod Writes
use vsm_agent_kernel.Base.{
  ℕ, zero, suc, ◌+◌, String, ◌≡◌, Bool, true, false, not, ◌&&◌, ◌||◌, Option, none, some, List, [],
  ◌∷◌, ◌++◌, string_key, ◌==◌, nat_beq, is_empty, length, retain, if◌then◌else◌,
}
use vsm_agent_kernel.Base.Results.{Result, ok, err, map_err}
use vsm_agent_kernel.Base.TreeMap.{TreeMap, get, insert, modify}
use vsm_agent_kernel.Core.Id.{NodeId}
use vsm_agent_kernel.Core.Capability.{default_leaf_operation}
use vsm_agent_kernel.Core.Channel.{ChannelConfig}
use vsm_agent_kernel.Core.Node.{
  ViableNode, PromptComponent, PromptGenome, ToolSpec, NodeLifecycleStatus, new_leaf, default_model,
  default_prompt, default_context_policy, default_permissions,
}
use vsm_agent_kernel.Core.Genome.{
  OrganizationalGenome, World, GenomeError, node_not_found, add_child, update_node, remove_subtree,
}

pub data PromptSection : Type 0 where
  behavior_rules domain_hints codebase_conventions : PromptSection
  negative_constraints output_contract : PromptSection

-- `Batch` holds a vector of patches.
mutual
  pub data OrganizationalGenomePatch : Type 0 where
    add_child_patch : NodeId → ViableNode → OrganizationalGenomePatch
    promote_leaf_to_metasystem : NodeId → String → OrganizationalGenomePatch
    remove_subtree_patch : NodeId → OrganizationalGenomePatch
    add_channel : ChannelConfig → OrganizationalGenomePatch
    remove_channel : String → OrganizationalGenomePatch
    add_prompt_component : NodeId → PromptSection → PromptComponent → OrganizationalGenomePatch
    remove_prompt_component : NodeId → String → OrganizationalGenomePatch
    add_tool : NodeId → ToolSpec → OrganizationalGenomePatch
    remove_tool : NodeId → String → OrganizationalGenomePatch
    set_node_status : NodeId → NodeLifecycleStatus → OrganizationalGenomePatch
    batch : Patches → OrganizationalGenomePatch

  pub data Patches : Type 0 where
    nil : Patches
    cons : OrganizationalGenomePatch → Patches → Patches

pub data PatchError : Type 0 where
  genome_error : GenomeError → PatchError
  prompt_component_not_found : String → PatchError
  node_is_not_leaf : NodeId → PatchError

-- What a patch leaves: its outcome, and the genome with the number of ids drawn.
abbrev pub Applied : Type 0
Applied = Result PatchError (Unit {0}) × World

abbrev discard {ℓ} : {A : Type ℓ} → Result GenomeError A → Result PatchError (Unit {0})
discard (ok _) = ok tt
discard (err e) = err (genome_error e)

-- `genome.get_node_mut(id)?` and a write to the node.
write_node : World → NodeId → (ViableNode → ViableNode) → Applied
write_node w id write =
    let (result, genome) = update_node w.genome id write in
    (discard result, record w { genome = genome })

-- The child that takes over the operation of the leaf `node`.
pub extracted : NodeId → NodeId → String → ViableNode → ViableNode
extracted child_id node_id name node = record (new_leaf child_id name node.leaf_operation) {
  system_5 = node.system_5;
  model = node.model;
  prompt = node.prompt;
  tools = node.tools;
  context_policy = node.context_policy;
  permissions = node.permissions;
  metadata = insert "extracted_from_node_id" node_id node.metadata;
}

-- The writes to the promoted node.
pub promoted : ViableNode → ViableNode
promoted parent = record parent {
  leaf_operation = default_leaf_operation;
  model = default_model;
  prompt = default_prompt;
  tools = [];
  context_policy = default_context_policy;
  permissions = default_permissions;
  metadata = insert "promoted_to_metasystem" "true" parent.metadata;
}

pub after_extraction : NodeId → Result GenomeError NodeId × World → Applied
unfolding write_node promoted
after_extraction node_id (err e, w) = (err (genome_error e), w)
after_extraction node_id (ok _, w) = write_node w node_id promoted

-- `PromoteLeafToMetasystem`: the child's id is drawn before its channels' ids.
pub promote : (ℕ → String) → World → NodeId → String → Applied
unfolding after_extraction extracted
promote uuid w node_id name = elim (get node_id w.genome.nodes) [
  | none ↦ (err (genome_error (node_not_found node_id)), w)
  | some node ↦
      if not (is_empty node.children)
      then (err (node_is_not_leaf node_id), w)
      else after_extraction node_id (
          add_child uuid (record w { issued = w.issued + 1 }) node_id
            (extracted (uuid w.issued) node_id name node))
]

push_component : PromptSection → PromptComponent → PromptGenome → PromptGenome
push_component behavior_rules c p = record p { behavior_rules = p.behavior_rules ++ c ∷ [] }
push_component domain_hints c p = record p { domain_hints = p.domain_hints ++ c ∷ [] }
push_component codebase_conventions c p = record p {
  codebase_conventions = p.codebase_conventions ++ c ∷ [];
}
push_component negative_constraints c p = record p {
  negative_constraints = p.negative_constraints ++ c ∷ [];
}
push_component output_contract c p = record p { output_contract = some c }

-- `section.retain(|c| c.id != component_id)`.
drop_component : String → List PromptComponent → List PromptComponent
drop_component component_id = retain (λ c. not (c.id == component_id))

contract_is : String → Option PromptComponent → Bool
contract_is component_id none = false
contract_is component_id (some c) = c.id == component_id

-- The prompt after the loop over the four sections and the test of the contract.
prompt_without : String → PromptGenome → PromptGenome
unfolding drop_component contract_is
prompt_without component_id p = record p {
  behavior_rules = drop_component component_id p.behavior_rules;
  domain_hints = drop_component component_id p.domain_hints;
  codebase_conventions = drop_component component_id p.codebase_conventions;
  negative_constraints = drop_component component_id p.negative_constraints;
  output_contract = if contract_is component_id p.output_contract then none else p.output_contract;
}

shrunk : String → List PromptComponent → Bool
unfolding drop_component
shrunk component_id section =
    not (nat_beq (length (drop_component component_id section)) (length section))

-- The flag `removed` of the same loop.
removes_component : String → PromptGenome → Bool
unfolding shrunk contract_is
removes_component component_id p =
    shrunk component_id p.behavior_rules
    || shrunk component_id p.domain_hints
    || shrunk component_id p.codebase_conventions
    || shrunk component_id p.negative_constraints
    || contract_is component_id p.output_contract

remove_component : World → NodeId → String → Applied
unfolding write_node prompt_without removes_component
remove_component w node_id component_id = elim (get node_id w.genome.nodes) [
  | none ↦ (err (genome_error (node_not_found node_id)), w)
  | some node ↦
      let written =
        write_node w node_id (λ n. record n { prompt = prompt_without component_id n.prompt }) in
      if removes_component component_id node.prompt
      then (ok tt, written.1)
      else (err (prompt_component_not_found component_id), written.1)
]

removal : World → Option (Result GenomeError (List NodeId) × OrganizationalGenome) → Option Applied
removal w none = none
removal w (some (result, genome)) = some (discard result, record w { genome = genome })

-- The patches other than `Batch`. Only the removal of a subtree needs the fuel.
apply_one : (ℕ → String) → ℕ → World → OrganizationalGenomePatch → Option Applied
unfolding write_node promote push_component remove_component removal
apply_one uuid fuel w (add_child_patch parent_id child) =
    let (result, after) = add_child uuid w parent_id child in some (discard result, after)
apply_one uuid fuel w (promote_leaf_to_metasystem node_id name) = some (promote uuid w node_id name)
apply_one uuid fuel w (remove_subtree_patch node_id) =
    removal w (remove_subtree fuel w.genome node_id)
apply_one uuid fuel w (add_channel channel) =
    some (
      ok tt,
      record w { genome = record w.genome { channels = w.genome.channels ++ channel ∷ [] } },
    )
apply_one uuid fuel w (remove_channel channel_id) = some (
  ok tt,
  record w {
    genome = record w.genome {
      channels = retain (λ ch. not (ch.id == channel_id)) w.genome.channels;
    };
  },
)
apply_one uuid fuel w (add_prompt_component node_id section component) =
    some
      (write_node w node_id (λ n. record n { prompt = push_component section component n.prompt }))
apply_one uuid fuel w (remove_prompt_component node_id component_id) =
    some (remove_component w node_id component_id)
apply_one uuid fuel w (add_tool node_id tool) =
    some (write_node w node_id (λ n. record n { tools = n.tools ++ tool ∷ [] }))
apply_one uuid fuel w (remove_tool node_id tool_name) = some (
    write_node w node_id
      (λ n. record n { tools = retain (λ t. not (t.name == tool_name)) n.tools }))
apply_one uuid fuel w (set_node_status node_id status) =
    some (write_node w node_id (λ n. record n { status = status }))
apply_one uuid fuel w (batch patches) = some (ok tt, w)

-- `OrganizationalGenomePatch::apply`. A batch stops at its first error and keeps what it has done.
-- `none`: the recursion over a subtree went deeper than the fuel.
unfoldable mutual
  unfolding apply_one

  pub apply : OrganizationalGenomePatch → (ℕ → String) → ℕ → World → Option Applied
  apply (batch patches) uuid fuel w = apply_all patches uuid fuel w
  apply patch uuid fuel w = apply_one uuid fuel w patch

  pub apply_all : Patches → (ℕ → String) → ℕ → World → Option Applied
  apply_all nil uuid fuel w = some (ok tt, w)
  apply_all (cons patch rest) uuid fuel w = elim (apply patch uuid fuel w) [
    | none ↦ none
    | some (err e, after) ↦ some (err e, after)
    | some (ok _, after) ↦ apply_all rest uuid fuel after
  ]
