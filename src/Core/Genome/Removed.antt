-- ===== src/Core/Genome/Removed.antt =====
-- `remove_subtree` (crates/vsm-core/src/genome.rs): its outcomes, and what it leaves.
pub mod Tree
use vsm_agent_kernel.Base.{
  ℕ, suc, ◌+◌, ◌<◌, ◌≡◌, refl, sym, Bool, true, false, not, ◌&&◌, ◌||◌, Option, none, some, List,
  [], ◌∷◌, contains, contains-without, retain, without, string_key, arith, Bool-cases, Option-cases,
  ==_refl, ==_ne, ◌==◌, ◌≢◌, if◌then◌else◌, inl, inr,
}
use vsm_agent_kernel.Base.Results.{Result, ok, err}
use vsm_agent_kernel.Base.TreeMap.{
  TreeMap, get, modify, remove_all, get-modify, get-remove_all, option_map, is_some,
}
use vsm_agent_kernel.Core.Id.{NodeId}
use vsm_agent_kernel.Core.Channel.{ChannelConfig}
use vsm_agent_kernel.Core.Node.{ViableNode}
use vsm_agent_kernel.Core.Genome.{
  OrganizationalGenome, GenomeError, node_not_found, cannot_remove_root, remove_subtree, cut,
  unlink, collect_subtree, drop_child, parent_of, keeps_channel, end_removed,
}
use vsm_agent_kernel.Core.Genome.Tree.{Holds, IsTree}

abbrev pub without_child : NodeId → ViableNode → ViableNode
without_child id parent = record parent { children = without id parent.children }

module _ (fuel : ℕ) (genome : OrganizationalGenome) (id : NodeId) where
  pub remove_subtree_root :
      id ≡ genome.root_node_id
      → remove_subtree fuel genome id ≡ some (err cannot_remove_root, genome)
  unfolding remove_subtree
  remove_subtree_root e = ground (arith, string_key.beq_iff id genome.root_node_id)

  pub remove_subtree_missing :
      id ≢ genome.root_node_id
      → get id genome.nodes ≡ none
      → remove_subtree fuel genome id ≡ some (err (node_not_found id), genome)
  unfolding remove_subtree
  remove_subtree_missing ne e = ground (arith, string_key.beq_iff id genome.root_node_id)

  pub remove_subtree-cut :
      (node : ViableNode) (removed : List NodeId)
      → id ≢ genome.root_node_id
      → Holds genome id node
      → collect_subtree fuel genome id [] ≡ some (ok removed)
      → remove_subtree fuel genome id ≡ some (ok removed, cut genome id removed)
  unfolding remove_subtree
  remove_subtree-cut node removed ne held e =
      ground (arith, string_key.beq_iff id genome.root_node_id)

-- The nodes after the cut: the collected ones are gone, the parent of the cut node has lost it.
pub get-cut :
    (genome : OrganizationalGenome) (id : NodeId) (removed : List NodeId) (node : ViableNode)
    (parent_id : NodeId)
    → Holds genome id node
    → node.parent_id ≡ some parent_id
    → (j : NodeId)
    → get j (cut genome id removed).nodes ≡ (
        if contains removed j
        then none
        else if parent_id == j
        then option_map (without_child id) (get j genome.nodes)
        else get j genome.nodes)
unfolding cut
get-cut genome id removed node parent_id held up j = ground (
  arith,
  get-remove_all removed j (modify parent_id (without_child id) genome.nodes),
  get-modify parent_id j (without_child id) genome.nodes,
)
