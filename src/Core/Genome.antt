-- ===== src/Core/Genome.antt =====
-- crates/vsm-core/src/genome.rs: the organizational genome, a tree of viable nodes kept in a map
-- with parent and child pointers, and the channels between them.
pub mod Tree
pub mod Subtree
pub mod Termination
pub mod Added
pub mod Removed
pub mod Ancestors
pub mod WellFormed
pub mod Rewritten
pub mod Within
use vsm_agent_kernel.Base.{
  ℕ, zero, suc, ◌+◌, String, ◌≡◌, Bool, true, false, not, ◌&&◌, ◌||◌, Option, none, some, List, [],
  ◌∷◌, ◌++◌, string_key, ◌==◌, contains, retain, without, if◌then◌else◌,
}
use vsm_agent_kernel.Base.Results.{Result, ok, err}
use vsm_agent_kernel.Base.Int.{ℤ}
use vsm_agent_kernel.Base.TreeMap.{TreeMap, get, insert, modify, remove_all, is_some, option_map}
use vsm_agent_kernel.Core.Id.{NodeId, GenomeId}
use vsm_agent_kernel.Core.Channel.{ChannelConfig, standard, bundle_channels}
use vsm_agent_kernel.Core.Node.{ViableNode}

pub record GenomeLineage : Type 0 where
  pub parent_genome_ids : List GenomeId
  pub mutation_ids : List String
  pub created_at_unix_ms : Option ℤ

abbrev pub default_lineage : GenomeLineage
default_lineage = record { parent_genome_ids = []; mutation_ids = []; created_at_unix_ms = none }

pub record OrganizationalGenome : Type 0 where
  pub id : GenomeId
  pub root_node_id : NodeId
  pub nodes : TreeMap NodeId ViableNode
  pub channels : List ChannelConfig
  pub lineage : GenomeLineage
  pub metadata : TreeMap String String

pub data GenomeError : Type 0 where
  node_not_found node_already_exists : NodeId → GenomeError
  root_cannot_have_parent cycle_detected cannot_remove_root : GenomeError

-- A genome under construction, with the number of ids that the run has drawn so far.
pub record World : Type 0 where
  pub genome : OrganizationalGenome
  pub issued : ℕ

-- `OrganizationalGenome::new`; the id is the one that `GenomeId::new` draws.
unfoldable pub new : GenomeId → ViableNode → OrganizationalGenome
new id root = record {
  id = id;
  root_node_id = root.id;
  nodes = insert root.id root [];
  channels = [];
  lineage = default_lineage;
  metadata = [];
}

unfoldable pub get_node : OrganizationalGenome → NodeId → Result GenomeError ViableNode
get_node genome id = elim (get id genome.nodes) [
  | none ↦ err (node_not_found id)
  | some node ↦ ok node
]

-- `get_node_mut` and a write to the node. A missing node is an error and nothing is written.
unfoldable pub update_node :
    OrganizationalGenome
    → NodeId
    → (ViableNode → ViableNode)
    → Result GenomeError (Unit {0}) × OrganizationalGenome
update_node genome id write = elim (get id genome.nodes) [
  | none ↦ (err (node_not_found id), genome)
  | some node ↦ (ok tt, record genome { nodes = modify id write genome.nodes })
]

-- The writes of `add_child` past its guards: the node, the parent's child list, the channels.
push_child : NodeId → ViableNode → ViableNode
push_child child_id parent = record parent { children = parent.children ++ child_id ∷ [] }

link_child : (ℕ → String) → World → NodeId → ViableNode → Result GenomeError NodeId × World
unfolding update_node push_child
link_child uuid w parent_id child =
    let inserted : OrganizationalGenome = record w.genome {
      nodes = insert child.id (record child { parent_id = some parent_id }) w.genome.nodes;
    } in
    let (result, genome) = update_node inserted parent_id (push_child child.id) in
    elim result [
      | err e ↦ (err e, record w { genome = genome })
      | ok _ ↦ (
        ok child.id,
        record {
          genome = record genome {
            channels =
                genome.channels ++ bundle_channels (standard uuid w.issued parent_id child.id);
          };
          issued = w.issued + 5;
        },
      )
    ]

unfoldable pub add_child :
    (ℕ → String) → World → NodeId → ViableNode → Result GenomeError NodeId × World
unfolding link_child
add_child uuid w parent_id child =
    if not (is_some (get parent_id w.genome.nodes))
    then (err (node_not_found parent_id), w)
    else if is_some (get child.id w.genome.nodes)
    then (err (node_already_exists child.id), w)
    else link_child uuid w parent_id child

-- The loop over the children of `collect_subtree`, over the recursive call `visit`.
collect_children :
    (NodeId → List NodeId → Option (Result GenomeError (List NodeId)))
    → List NodeId
    → List NodeId
    → Option (Result GenomeError (List NodeId))
collect_children visit [] out = some (ok out)
collect_children visit (child_id ∷ rest) out = elim (visit child_id out) [
  | none ↦ none
  | some (err e) ↦ some (err e)
  | some (ok out') ↦ collect_children visit rest out'
]

-- `collect_subtree` with its recursion depth bounded by fuel: `none` stands for a recursion that
-- goes deeper. The list is `out` at a normal return; at an error no caller reads it.
unfoldable pub collect_subtree :
    ℕ → OrganizationalGenome → NodeId → List NodeId → Option (Result GenomeError (List NodeId))
unfolding collect_children
collect_subtree zero genome node_id out = none
collect_subtree (suc fuel) genome node_id out = elim (get node_id genome.nodes) [
  | none ↦ some (err (node_not_found node_id))
  | some node ↦ collect_children (collect_subtree fuel genome) node.children (out ++ node_id ∷ [])
]

unfoldable pub subtree_ids :
    ℕ → OrganizationalGenome → NodeId → Option (Result GenomeError (List NodeId))
unfolding collect_subtree
subtree_ids fuel genome node_id = collect_subtree fuel genome node_id []

-- `removed.contains(id)` for an end of a channel, false where the end is open.
end_removed : List NodeId → Option NodeId → Bool
end_removed removed none = false
end_removed removed (some id) = contains removed id

pub keeps_channel : List NodeId → ChannelConfig → Bool
unfolding end_removed
keeps_channel removed ch = not (end_removed removed ch.from) && not (end_removed removed ch.to)

drop_child : NodeId → ViableNode → ViableNode
drop_child node_id parent = record parent { children = without node_id parent.children }

-- `if let Some(parent_id) = ..` over `if let Some(parent) = self.nodes.get_mut(..)`.
unlink : OrganizationalGenome → NodeId → Option NodeId → TreeMap NodeId ViableNode
unfolding drop_child
unlink genome node_id none = genome.nodes
unlink genome node_id (some parent_id) = modify parent_id (drop_child node_id) genome.nodes

parent_of : OrganizationalGenome → NodeId → Option NodeId
parent_of genome node_id = elim (get node_id genome.nodes) [
  | none ↦ none
  | some node ↦ node.parent_id
]

-- The writes of `remove_subtree`, once the subtree is collected.
pub cut : OrganizationalGenome → NodeId → List NodeId → OrganizationalGenome
unfolding unlink parent_of keeps_channel
cut genome node_id removed = record genome {
  nodes = remove_all removed (unlink genome node_id (parent_of genome node_id));
  channels = retain (keeps_channel removed) genome.channels;
}

-- `none`: the collection of the subtree ran out of fuel.
unfoldable pub remove_subtree :
    ℕ
    → OrganizationalGenome
    → NodeId
    → Option (Result GenomeError (List NodeId) × OrganizationalGenome)
unfolding cut collect_subtree
remove_subtree fuel genome node_id =
    if node_id == genome.root_node_id
    then some (err cannot_remove_root, genome)
    else if not (is_some (get node_id genome.nodes))
    then some (err (node_not_found node_id), genome)
    else elim (collect_subtree fuel genome node_id []) [
      | none ↦ none
      | some (err e) ↦ some (err e, genome)
      | some (ok removed) ↦ some (ok removed, cut genome node_id removed)
    ]

-- The `while let` loop of `ancestor_ids`, on fuel.
climb :
    ℕ
    → OrganizationalGenome
    → Option NodeId
    → List NodeId
    → Option (Result GenomeError (List NodeId))
climb fuel genome none ancestors = some (ok ancestors)
climb zero genome (some parent_id) ancestors = none
climb (suc fuel) genome (some parent_id) ancestors = elim (get parent_id genome.nodes) [
  | none ↦ some (err (node_not_found parent_id))
  | some parent ↦ climb fuel genome parent.parent_id (ancestors ++ parent_id ∷ [])
]

unfoldable pub ancestor_ids :
    ℕ → OrganizationalGenome → NodeId → Option (Result GenomeError (List NodeId))
unfolding climb
ancestor_ids fuel genome node_id = elim (get node_id genome.nodes) [
  | none ↦ some (err (node_not_found node_id))
  | some node ↦ climb fuel genome node.parent_id []
]
