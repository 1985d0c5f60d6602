-- ===== src/Core/Genome/Within.antt =====
-- Trees of bounded height under the operations of crates/vsm-core/src/genome.rs: an addition makes a
-- tree one level higher at most, a removal and a write to a node no higher.
use vsm_agent_kernel.Base.{
  ℕ, suc, ◌≤◌, ◌<◌, String, ◌≡◌, ◌≢◌, sym, inl, inr, none, some, List, [], contains, ==_refl,
  string_key, arith, Bool-cases, Option-cases, ==_eq, ◌==◌, subst,
}
use vsm_agent_kernel.Base.Results.{Result, ok, err}
use vsm_agent_kernel.Base.TreeMap.{get, insert, get-insert}
use vsm_agent_kernel.Core.Id.{NodeId, GenomeId}
use vsm_agent_kernel.Core.Node.{ViableNode}
use vsm_agent_kernel.Core.Genome.{
  OrganizationalGenome, World, GenomeError, node_not_found, cannot_remove_root, new, add_child, cut,
  remove_subtree, update_node,
}
use vsm_agent_kernel.Core.Genome.Tree.{IsTree}
use vsm_agent_kernel.Core.Genome.Added.{add_child_no_parent, add_child_taken, add_child-added}
use vsm_agent_kernel.Core.Genome.Added.Tree.{grown-IsTree, height-grown}
use vsm_agent_kernel.Core.Genome.Rewritten.{KeepsPlace, rewritten-IsTree, height-rewritten}
use vsm_agent_kernel.Core.Genome.Subtree.{Collected, collect_subtree-Collected}
use vsm_agent_kernel.Core.Genome.Termination.{collect_subtree_total}
use vsm_agent_kernel.Core.Genome.Removed.{
  remove_subtree_root, remove_subtree_missing, remove_subtree-cut,
}
use vsm_agent_kernel.Core.Genome.Removed.Tree.{left-IsTree, height-left}

abbrev pub Within : ℕ → OrganizationalGenome → Type 0
Within h genome = (tree : IsTree genome) × (tree.height ≤ h)

-- All that a genome of one node holds is that node.
one_node :
    (root : ViableNode) (j : NodeId) (node : ViableNode)
    → get j (insert root.id root []) ≡ some node
    → (root.id ≡ j) × (node ≡ root)
unfolding get insert
one_node root j node h = (ground (arith, string_key.beq_iff root.id j), ground arith)

-- A genome of one node that has neither a parent nor children is a tree of height 0.
pub new-Within :
    (id : GenomeId) (root : ViableNode)
    → root.parent_id ≡ none
    → root.children ≡ []
    → Within 0 (new id root)
unfolding new contains
new-Within id root no_parent no_children = (
  record {
    depth = λ _. 0;
    height = 0;
    root_held =
        (root, ground (arith, get-insert root.id root.id root [], ==_refl root.id), no_parent);
    keyed = λ j node h. ground (arith, one_node root j node h);
    only_root = λ j node h _. sym (one_node root j node h).0;
    parent_held = λ j p node h e. absurd (ground (arith, one_node root j node h));
    child_held = λ j c node h m. absurd (ground (arith, one_node root j node h));
    bounded = λ j node h. omega arith;
  },
  omega arith,
)

pub Within-le :
    (h k : ℕ) (genome : OrganizationalGenome) → h ≤ k → Within h genome → Within k genome
Within-le h k genome le (tree, low) = (tree, omega arith)

pub add_child-Within :
    (uuid : ℕ → String) (w : World) (parent_id : NodeId) (child : ViableNode) (h : ℕ)
    → child.children ≡ []
    → Within h w.genome
    → Within (suc h) (add_child uuid w parent_id child).1.genome
add_child-Within uuid w parent_id child h childless (tree, low) =
    elim (Option-cases (get parent_id w.genome.nodes)) [
      | inl missing ↦ rw (add_child_no_parent uuid w parent_id child missing) (tree, omega arith)
      | inr (parent, held) ↦ elim (Option-cases (get child.id w.genome.nodes)) [
        | inl fresh ↦ rw (add_child-added uuid w parent_id child parent held fresh) (
          grown-IsTree w.genome parent_id parent child held fresh tree childless,
          omega (arith, height-grown w.genome parent_id parent child held fresh tree childless),
        )
        | inr (old, taken) ↦
            rw (add_child_taken uuid w parent_id child parent old held taken) (tree, omega arith)
      ]
    ]

pub update_node-Within :
    (genome : OrganizationalGenome) (id : NodeId) (write : ViableNode → ViableNode) (h : ℕ)
    → KeepsPlace write
    → Within h genome
    → Within h (update_node genome id write).1
unfolding update_node
update_node-Within genome id write h keeps (tree, low) = elim (Option-cases (get id genome.nodes)) [
  | inl missing ↦ rw (missing, update_node) (tree, low)
  | inr (node, held) ↦
      rw (held, update_node)
        (
          rewritten-IsTree genome id write keeps tree,
          omega (arith, height-rewritten genome id write keeps tree),
        )
]

pub remove_subtree-Within :
    (fuel : ℕ) (genome : OrganizationalGenome) (id : NodeId) (h : ℕ)
    → h < fuel
    → Within h genome
    → (r : Result GenomeError (List NodeId)) × (after : OrganizationalGenome) × (remove_subtree fuel
          genome id
        ≡ some (r, after))
      × Within h after
remove_subtree-Within fuel genome id h enough (tree, low) =
    elim (Bool-cases (id == genome.root_node_id)) [
      | inl root ↦ (
        err cannot_remove_root,
        genome,
        remove_subtree_root fuel genome id (==_eq root),
        (tree, low),
      )
      | inr not_root ↦
          let ne : id ≢ genome.root_node_id =
            λ e. ground (arith, string_key.beq_iff id genome.root_node_id) in
          elim (Option-cases (get id genome.nodes)) [
            | inl missing ↦ (
              err (node_not_found id),
              genome,
              remove_subtree_missing fuel genome id ne missing,
              (tree, low),
            )
            | inr (node, held) ↦
                let (removed, e) =
                  collect_subtree_total genome tree fuel id [] node held (omega arith) in
                let (ids, same, c) = collect_subtree-Collected genome fuel id [] removed e in
                (
                  ok removed,
                  cut genome id removed,
                  remove_subtree-cut fuel genome id node removed ne held e,
                  (
                    left-IsTree genome id node removed tree ne held
                        (subst (Collected genome id) (sym same) c),
                    omega (
                      arith,
                      height-left genome id node removed tree ne held
                          (subst (Collected genome id) (sym same) c),
                    ),
                  ),
                )
          ]
    ]
