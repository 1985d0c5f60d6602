-- ===== src/Core/Genome/Tree.antt =====
-- The well-formedness of a genome (crates/vsm-core/src/genome.rs): its parent and child pointers
-- agree and form a tree under the root.
use vsm_agent_kernel.Base.{ℕ, suc, ◌≤◌, ◌≡◌, true, none, some, contains, string_key}
use vsm_agent_kernel.Base.TreeMap.{TreeMap, get}
use vsm_agent_kernel.Core.Id.{NodeId}
use vsm_agent_kernel.Core.Node.{ViableNode}
use vsm_agent_kernel.Core.Genome.{OrganizationalGenome}

abbrev pub Holds : OrganizationalGenome → NodeId → ViableNode → Type 0
Holds genome id node = get id genome.nodes ≡ some node

-- `depth` counts the edges up to the root, and shows that there is no cycle.
pub record TreeUnder (top : NodeId) (nodes : TreeMap NodeId ViableNode) : Type 0 where
  pub depth : NodeId → ℕ
  pub height : ℕ
  pub root_held : (root : ViableNode) × (get top nodes ≡ some root) × (root.parent_id ≡ none)
  pub keyed : (id : NodeId) (node : ViableNode) → (get id nodes ≡ some node) → node.id ≡ id
  pub only_root :
      (id : NodeId) (node : ViableNode)
      → (get id nodes ≡ some node)
      → node.parent_id ≡ none
      → id ≡ top
  pub parent_held :
      (id parent_id : NodeId) (node : ViableNode)
      → (get id nodes ≡ some node)
      → node.parent_id ≡ some parent_id
      → (parent : ViableNode) × (get parent_id nodes ≡ some parent)
        × (contains parent.children id ≡ true)
        × (depth id ≡ suc (depth parent_id))
  pub child_held :
      (id child_id : NodeId) (node : ViableNode)
      → (get id nodes ≡ some node)
      → contains node.children child_id ≡ true
      → (child : ViableNode) × (get child_id nodes ≡ some child) × (child.parent_id ≡ some id)
  pub bounded : (id : NodeId) (node : ViableNode) → (get id nodes ≡ some node) → depth id ≤ height

abbrev pub IsTree : OrganizationalGenome → Type 0
IsTree genome = TreeUnder genome.root_node_id genome.nodes

-- `Below genome a b`: `b` is `a`, or is reached from it along child pointers.
pub data Below (genome : OrganizationalGenome) (a : NodeId) : NodeId → Type 0 where
  here : Below genome a a
  down :
      {b c : NodeId}
      → Below genome a b
      → (node : ViableNode) → get b genome.nodes ≡ some node
      → contains node.children c ≡ true
      → Below genome a c

module _ {genome : OrganizationalGenome} where
  -- A first step in front of a descent.
  pub Below-step :
      {a b c : NodeId} (node : ViableNode)
      → Holds genome a node
      → contains node.children b ≡ true
      → Below genome b c
      → Below genome a c
  Below-step node held is_child here = down here node held is_child
  Below-step node held is_child (down below m e i) =
      down (Below-step node held is_child below) m e i
