-- ===== src/Core/Genome/Added.antt =====
-- `add_child` (crates/vsm-core/src/genome.rs): its outcomes, and that it keeps a tree a tree.
pub mod Tree
use vsm_agent_kernel.Base.{
  ℕ, suc, ◌+◌, ◌≤◌, String, ◌≡◌, ◌≢◌, refl, sym, ap, ◌∙◌, ◌⊎◌, inl, inr, Bool, true, false, not,
  ◌||◌, Option, none, some, List, [], ◌∷◌, ◌++◌, contains, contains-append, contains-singleton,
  string_key, arith, Bool-cases, ==_refl, ==_eq, ==_ne, ◌==◌, subst, if◌then◌else◌,
}
use vsm_agent_kernel.Base.Results.{Result, ok, err}
use vsm_agent_kernel.Base.TreeMap.{
  TreeMap, get, insert, modify, get-insert, get-modify, option_map, is_some,
}
use vsm_agent_kernel.Core.Id.{NodeId}
use vsm_agent_kernel.Core.Channel.{standard, bundle_channels}
use vsm_agent_kernel.Core.Node.{ViableNode}
use vsm_agent_kernel.Core.Genome.{
  OrganizationalGenome, World, GenomeError, node_not_found, node_already_exists, add_child,
  push_child, update_node,
}
use vsm_agent_kernel.Core.Genome.Tree.{Holds, IsTree}

abbrev pub under : NodeId → ViableNode → ViableNode
under parent_id child = record child { parent_id = some parent_id }

abbrev pub with_child : NodeId → ViableNode → ViableNode
with_child child_id parent = record parent { children = parent.children ++ child_id ∷ [] }

-- The nodes of a genome to which `child` was added under `parent_id`.
abbrev pub nodes_with : TreeMap NodeId ViableNode → NodeId → ViableNode → TreeMap NodeId ViableNode
nodes_with nodes parent_id child =
    modify parent_id (with_child child.id) (insert child.id (under parent_id child) nodes)

abbrev pub added : (ℕ → String) → World → NodeId → ViableNode → World
added uuid w parent_id child = record {
  genome = record w.genome {
    nodes = nodes_with w.genome.nodes parent_id child;
    channels = w.genome.channels ++ bundle_channels (standard uuid w.issued parent_id child.id);
  };
  issued = w.issued + 5;
}

module _ (uuid : ℕ → String) (w : World) (parent_id : NodeId) (child : ViableNode) where
  pub add_child_no_parent :
      get parent_id w.genome.nodes ≡ none
      → add_child uuid w parent_id child ≡ (err (node_not_found parent_id), w)
  unfolding add_child
  add_child_no_parent h = ground arith

  pub add_child_taken :
      (parent old : ViableNode)
      → Holds w.genome parent_id parent
      → Holds w.genome child.id old
      → add_child uuid w parent_id child ≡ (err (node_already_exists child.id), w)
  unfolding add_child
  add_child_taken parent old h k = ground arith

  pub add_child-added :
      (parent : ViableNode)
      → Holds w.genome parent_id parent
      → get child.id w.genome.nodes ≡ none
      → add_child uuid w parent_id child ≡ (ok child.id, added uuid w parent_id child)
  unfolding add_child
  add_child-added parent h k = ground (
    arith,
    get-insert child.id parent_id (under parent_id child) w.genome.nodes,
    string_key.beq_iff child.id parent_id,
  )
