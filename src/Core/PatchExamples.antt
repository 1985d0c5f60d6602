-- ===== src/Core/PatchExamples.antt =====
-- Tests of the patches of crates/vsm-core/src/patch.rs, and the theorems at concrete inputs.
use vsm_agent_kernel.Base.{
  ◌+◌, ◌≤◌, ◌≡◌, ◌≢◌, refl, true, false, none, some, [], ◌∷◌, string_key, arith,
}
use vsm_agent_kernel.Base.Results.{Result, ok, err}
use vsm_agent_kernel.Base.TreeMap.{get, insert, modify}
use vsm_agent_kernel.Core.Id.{NodeId}
use vsm_agent_kernel.Core.Capability.{for_metasystem}
use vsm_agent_kernel.Core.Node.{ViableNode, ToolSpec, retired, capabilities}
use vsm_agent_kernel.Core.Genome.{World, node_not_found, new, add_child, update_node}
use vsm_agent_kernel.Core.Fixtures.{uuid, coder, two, two-Within, coder_held}
use vsm_agent_kernel.Core.Genome.Tree.{Holds, IsTree}
use vsm_agent_kernel.Core.Patch.{
  OrganizationalGenomePatch, Patches, PatchError, genome_error, promote_leaf_to_metasystem,
  remove_subtree_patch, add_tool, set_node_status, batch, nil, cons, apply,
}
use vsm_agent_kernel.Core.Patch.Shape.{childless, growth, apply-IsTree}
use vsm_agent_kernel.Core.Patch.Promotion.{promote-moves_authority}
use vsm_agent_kernel.Core.Patch.Keeps.{is_batch, apply_error-keeps}
use vsm_agent_kernel.Core.Patch.Batches.{concat, batch_fails_at}

fresh_free : get "fresh" two.genome.nodes ≡ none
unfolding new add_child update_node get insert modify
fresh_free = refl

promote-moves_authority_example :
    (after : World) × (parent child : ViableNode) × (apply
        (promote_leaf_to_metasystem "c" "generalist")
        uuid
        0
        two
      ≡ some (ok tt, after))
    × Holds after.genome "c" parent
    × Holds after.genome "fresh" child
    × (parent.children ≡ "fresh" ∷ [])
    × (child.parent_id ≡ some "c")
    × (capabilities parent ≡ for_metasystem)
    × ((capabilities parent).can_write_code ≡ false)
    × (capabilities child ≡ capabilities (record coder { parent_id = some "r" }))
    × (parent.tools ≡ [])
    × (child.model ≡ coder.model)
    × (child.prompt ≡ coder.prompt)
    × (child.tools ≡ coder.tools)
    × (child.context_policy ≡ coder.context_policy)
    × (child.permissions ≡ coder.permissions)
    × (child.system_5 ≡ coder.system_5)
    × ((j : NodeId) → j ≢ "c" → j ≢ "fresh" → get j after.genome.nodes ≡ get j two.genome.nodes)
promote-moves_authority_example =
    promote-moves_authority uuid 0 two "c" "generalist" (record coder { parent_id = some "r" })
      coder_held refl fresh_free

abbrev promote_and_remove : OrganizationalGenomePatch
promote_and_remove =
    batch (cons (promote_leaf_to_metasystem "c" "generalist") (cons (remove_subtree_patch "c") nil))

promote_and_remove-childless : childless promote_and_remove ≡ true
unfolding childless
promote_and_remove-childless = refl

promote_and_remove-growth : growth promote_and_remove ≡ 1
unfolding growth
promote_and_remove-growth = refl

apply-IsTree_example :
    (result : Result PatchError (Unit {0})) × (after : World) × (apply promote_and_remove uuid 3 two
      ≡ some (result, after))
    × (tree' : IsTree after.genome) × (tree'.height
        ≤ two-Within.0.height + growth promote_and_remove)
apply-IsTree_example =
    apply-IsTree promote_and_remove uuid 3 two two-Within.0 promote_and_remove-childless
      (omega (arith, two-Within.1, promote_and_remove-growth))

abbrev hammer : ToolSpec
hammer = record { name = "hammer"; description = none; permissions = []; enabled = true }

tool_for_nobody :
    apply (add_tool "x" hammer) uuid 0 two ≡ some (err (genome_error (node_not_found "x")), two)
unfolding new add_child update_node get insert modify apply
tool_for_nobody = refl

not_batch : is_batch (add_tool "x" hammer) ≡ false
unfolding is_batch
not_batch = refl

apply_error-keeps_example : two.genome ≡ two.genome
apply_error-keeps_example =
    apply_error-keeps (add_tool "x" hammer) uuid 0 two (genome_error (node_not_found "x")) two
      not_batch tool_for_nobody

-- The first patch of the batch is done when the second one fails.
abbrev half_done : World
half_done = record two {
  genome = record two.genome {
    nodes = modify "c" (λ n. record n { status = retired }) two.genome.nodes;
  };
}

abbrev failing : Patches
failing = cons (set_node_status "c" retired) (cons (add_tool "x" hammer) nil)

failing_fails :
    apply (batch failing) uuid 0 two ≡ some (err (genome_error (node_not_found "x")), half_done)
unfolding new add_child update_node get insert modify apply
failing_fails = refl

batch_fails_at_example :
    (done : Patches) × (patch : OrganizationalGenomePatch) × (rest : Patches) × (before : World)
    × (failing ≡ concat done (cons patch rest))
    × (apply (batch done) uuid 0 two ≡ some (ok tt, before))
    × (apply patch uuid 0 before ≡ some (err (genome_error (node_not_found "x")), half_done))
batch_fails_at_example =
    batch_fails_at failing uuid 0 two (genome_error (node_not_found "x")) half_done failing_fails
