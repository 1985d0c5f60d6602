-- ===== src/Core/Patch/Promotion.antt =====
-- `PromoteLeafToMetasystem` (crates/vsm-core/src/patch.rs): a leaf becomes a metasystem, and what it
-- could do passes to its new child.
use vsm_agent_kernel.Base.{
  ℕ, ◌+◌, String, ◌≡◌, ◌≢◌, refl, ap, ◌∙◌, true, false, none, some, List, [], ◌∷◌, ◌++◌, is_empty,
  string_key, arith, if◌then◌else◌, ◌==◌, ==_refl,
}
use vsm_agent_kernel.Base.Results.{ok, err}
use vsm_agent_kernel.Base.TreeMap.{get, insert, modify, get-insert, get-modify}
use vsm_agent_kernel.Core.Id.{NodeId}
use vsm_agent_kernel.Core.Node.{ViableNode}
use vsm_agent_kernel.Core.Genome.{World, node_not_found, add_child, update_node}
use vsm_agent_kernel.Core.Genome.Tree.{Holds}
use vsm_agent_kernel.Core.Genome.Added.{added, under, with_child, nodes_with, add_child-added}
use vsm_agent_kernel.Core.Patch.{
  promote_leaf_to_metasystem, genome_error, node_is_not_leaf, write_node, extracted, promoted,
  after_extraction, promote, apply,
}
use vsm_agent_kernel.Core.Capability.{CapabilitySet, for_metasystem}
use vsm_agent_kernel.Core.Node.{capabilities}

-- After the child is added the parent is there, so the writes to it do not fail.
pub after_extraction-added :
    (uuid : ℕ → String) (w : World) (p : NodeId) (child parent : ViableNode)
    → Holds w.genome p parent
    → get child.id w.genome.nodes ≡ none
    → (after : World) × (after_extraction p (add_child uuid w p child) ≡ (ok tt, after))
      × ((j : NodeId)
          → get j after.genome.nodes ≡ (
              if child.id == j
              then some (under p child)
              else if p == j
              then some (promoted (with_child child.id parent))
              else get j w.genome.nodes))
unfolding after_extraction write_node update_node
after_extraction-added uuid w p child parent held fresh =
    let m = insert child.id (under p child) w.genome.nodes in
    let here : get p (nodes_with w.genome.nodes p child) ≡ some (with_child child.id parent) =
      ground (
        arith,
        get-modify p p (with_child child.id) m,
        get-insert child.id p (under p child) w.genome.nodes,
        string_key.beq_iff child.id p,
        ==_refl p,
      ) in
    (
      record (added uuid w p child) {
        genome = record (added uuid w p child).genome {
          nodes = modify p promoted (nodes_with w.genome.nodes p child);
        };
      },
      rw (add_child-added uuid w p child parent held fresh) (rw (here, update_node) refl),
      λ j. ground (
        arith,
        get-modify p j promoted (nodes_with w.genome.nodes p child),
        get-modify p j (with_child child.id) m,
        get-insert child.id j (under p child) w.genome.nodes,
        string_key.beq_iff child.id j,
        string_key.beq_iff p j,
      ),
    )

pub promote_missing :
    (uuid : ℕ → String) (w : World) (node_id : NodeId) (name : String)
    → get node_id w.genome.nodes ≡ none
    → promote uuid w node_id name ≡ (err (genome_error (node_not_found node_id)), w)
unfolding promote
promote_missing uuid w node_id name missing = rw (missing, promote) refl

pub promote_parent :
    (uuid : ℕ → String) (w : World) (node_id : NodeId) (name : String) (node : ViableNode)
    → Holds w.genome node_id node
    → is_empty node.children ≡ false
    → promote uuid w node_id name ≡ (err (node_is_not_leaf node_id), w)
unfolding promote
promote_parent uuid w node_id name node held parent = rw (held, promote) (rw parent refl)

module _ (uuid : ℕ → String) (w : World) (node_id : NodeId) (name : String) (node : ViableNode)
    (held : Holds w.genome node_id node) (leaf : is_empty node.children ≡ true) where
  -- The child that the promotion adds, before it has a parent.
  abbrev pub child : ViableNode
  child = extracted (uuid w.issued) node_id name node

  pub promote_leaf :
      promote uuid w node_id name
      ≡ after_extraction node_id (add_child uuid (record w { issued = w.issued + 1 }) node_id child)
  unfolding promote
  promote_leaf = rw (held, promote) (rw leaf refl)

append_one : (xs : List NodeId) (x : NodeId) → is_empty (xs ++ x ∷ []) ≡ false
append_one [] x = refl
append_one (y ∷ ys) x = refl

parent_capabilities :
    (node : ViableNode) (child_id : NodeId)
    → capabilities (promoted (with_child child_id node)) ≡ for_metasystem
unfolding capabilities promoted
parent_capabilities node child_id = rw (append_one node.children child_id) refl

child_capabilities :
    (node : ViableNode) (child_id node_id : NodeId) (name : String)
    → node.children ≡ []
    → capabilities (under node_id (extracted child_id node_id name node)) ≡ capabilities node
unfolding capabilities extracted
child_capabilities node child_id node_id name leaf =
    let empty : is_empty node.children ≡ true = rw leaf refl in rw empty refl

pub promote-moves_authority :
    (uuid : ℕ → String) (fuel : ℕ) (w : World) (node_id : NodeId) (name : String)
    (node : ViableNode)
    → Holds w.genome node_id node
    → node.children ≡ []
    → get (uuid w.issued) w.genome.nodes ≡ none
    → (after : World) × (parent child : ViableNode) × (apply
          (promote_leaf_to_metasystem node_id name)
          uuid
          fuel
          w
        ≡ some (ok tt, after))
      × Holds after.genome node_id parent
      × Holds after.genome (uuid w.issued) child
      × (parent.children ≡ uuid w.issued ∷ [])
      × (child.parent_id ≡ some node_id)
      × (capabilities parent ≡ for_metasystem)
      × ((capabilities parent).can_write_code ≡ false)
      × (capabilities child ≡ capabilities node)
      × (parent.tools ≡ [])
      × (child.model ≡ node.model)
      × (child.prompt ≡ node.prompt)
      × (child.tools ≡ node.tools)
      × (child.context_policy ≡ node.context_policy)
      × (child.permissions ≡ node.permissions)
      × (child.system_5 ≡ node.system_5)
      × ((j : NodeId)
          → j ≢ node_id
          → j ≢ uuid w.issued
          → get j after.genome.nodes ≡ get j w.genome.nodes)
unfolding apply extracted promoted for_metasystem
promote-moves_authority uuid fuel w node_id name node held leaf fresh =
    let (after, e, at) =
      after_extraction-added uuid (record w { issued = w.issued + 1 }) node_id
        (extracted (uuid w.issued) node_id name node) node held fresh in
    (
      after,
      promoted (with_child (uuid w.issued) node),
      under node_id (extracted (uuid w.issued) node_id name node),
      ap some (promote_leaf uuid w node_id name node held (rw leaf refl) ∙ e),
      ground (arith, at node_id, string_key.beq_iff (uuid w.issued) node_id, ==_refl node_id),
      ground (arith, at (uuid w.issued), ==_refl (uuid w.issued)),
      ap (λ z. z ++ uuid w.issued ∷ []) leaf,
      refl,
      parent_capabilities node (uuid w.issued),
      ap (λ (c : CapabilitySet). c.can_write_code) (parent_capabilities node (uuid w.issued)),
      child_capabilities node (uuid w.issued) node_id name leaf,
      refl,
      refl,
      refl,
      refl,
      refl,
      refl,
      refl,
      λ j a b.
          ground (arith, at j, string_key.beq_iff (uuid w.issued) j, string_key.beq_iff node_id j),
    )
