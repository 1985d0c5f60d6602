-- ===== src/Core/Patch/Writes.antt =====
-- The patches of crates/vsm-core/src/patch.rs that write to one node succeed if the genome has the node.
use vsm_agent_kernel.Base.{ℕ, String, ◌≡◌, refl, ap, some, string_key}
use vsm_agent_kernel.Base.Results.{ok}
use vsm_agent_kernel.Base.TreeMap.{get}
use vsm_agent_kernel.Core.Id.{NodeId}
use vsm_agent_kernel.Core.Node.{ViableNode, PromptComponent, NodeLifecycleStatus}
use vsm_agent_kernel.Core.Genome.{World, update_node}
use vsm_agent_kernel.Core.Patch.{
  PromptSection, add_prompt_component, set_node_status, write_node, push_component, apply_one,
  apply,
}

module _ (uuid : ℕ → String) (fuel : ℕ) (w : World) (id : NodeId) (node : ViableNode)
    (held : get id w.genome.nodes ≡ some node) where
  write_node-ok :
      (write : ViableNode → ViableNode) → write_node w id write ≡ (ok tt, (write_node w id write).1)
  unfolding write_node update_node
  write_node-ok write = rw (update_node, held) refl

  pub apply-add_prompt_component :
      (section : PromptSection) (component : PromptComponent)
      → (after : World) × (apply (add_prompt_component id section component) uuid fuel w
          ≡ some (ok tt, after))
  unfolding apply apply_one write_node
  apply-add_prompt_component section component =
      let write : ViableNode → ViableNode =
        λ n. record n { prompt = push_component section component n.prompt } in
      ((write_node w id write).1, ap some (write_node-ok write))

  pub apply-set_node_status :
      (status : NodeLifecycleStatus)
      → (after : World) × (apply (set_node_status id status) uuid fuel w ≡ some (ok tt, after))
  unfolding apply apply_one write_node
  apply-set_node_status status = (
    (write_node w id (λ n. record n { status = status })).1,
    ap some (write_node-ok (λ n. record n { status = status })),
  )
