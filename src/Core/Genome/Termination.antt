-- ===== src/Core/Genome/Termination.antt =====
-- `collect_subtree` and `ancestor_ids` (crates/vsm-core/src/genome.rs) return on a tree: the depth of
-- the recursion is at most the height of the tree.
use vsm_agent_kernel.Base.{
  ℕ, zero, suc, ◌+◌, ◌<◌, ◌≡◌, refl, ◌↔◌, true, Option, none, some, List, [], ◌∷◌, ◌++◌, contains,
  string_key, arith, ==_refl,
}
use vsm_agent_kernel.Base.Results.{Result, ok}
use vsm_agent_kernel.Core.Id.{NodeId}
use vsm_agent_kernel.Core.Node.{ViableNode}
use vsm_agent_kernel.Core.Genome.{
  OrganizationalGenome, GenomeError, collect_children, collect_subtree, subtree_ids,
}
use vsm_agent_kernel.Core.Genome.Tree.{Holds, IsTree, Below}
use vsm_agent_kernel.Core.Genome.Subtree.{subtree_ids-Below}

-- A loop over the children returns if each visit does.
collect_children_total :
    (visit : NodeId → List NodeId → Option (Result GenomeError (List NodeId))) (tops : List NodeId)
    → ((c : NodeId) (out : List NodeId)
        → contains tops c ≡ true
        → (r : List NodeId) × (visit c out ≡ some (ok r)))
    → (out : List NodeId) → (r : List NodeId) × (collect_children visit tops out ≡ some (ok r))
unfolding collect_children contains
collect_children_total visit [] returns out = (out, refl)
collect_children_total visit (c ∷ tops) returns out =
    let (out', e) = returns c out (ground (arith, ==_refl c)) in
    let (r, e') = collect_children_total visit tops (λ d o m. returns d o (ground arith)) out' in
    (r, rw (e, collect_children) e')

module _ (genome : OrganizationalGenome) (tree : IsTree genome) where
  child_depth :
      (id child_id : NodeId) (node : ViableNode)
      → Holds genome id node
      → contains node.children child_id ≡ true
      → (child : ViableNode) × Holds genome child_id child
        × (tree.depth child_id ≡ suc (tree.depth id))
  child_depth id child_id node held m =
      let (child, held', parent) = tree.child_held id child_id node held m in
      let (_, _, _, d) = tree.parent_held child_id id child held' parent in (child, held', d)

  pub collect_subtree_total :
      (fuel : ℕ) (id : NodeId) (out : List NodeId) (node : ViableNode)
      → Holds genome id node
      → tree.height < fuel + tree.depth id
      → (r : List NodeId) × (collect_subtree fuel genome id out ≡ some (ok r))
  unfolding collect_subtree
  collect_subtree_total zero id out node held enough =
      absurd (omega (arith, tree.bounded id node held))
  collect_subtree_total (suc fuel) id out node held enough =
      let (r, e) =
        collect_children_total (collect_subtree fuel genome) node.children
          (λ c o m.
            let (child, held', d) = child_depth id c node held m in
            collect_subtree_total fuel c o child held' (omega arith))
          (out ++ id ∷ []) in
      (r, rw (held, collect_subtree) e)

-- On a tree `subtree_ids` returns for every node of the genome, whatever the fuel above the height,
-- and lists exactly the node and what lies below it.
pub subtree_ids_total :
    (genome : OrganizationalGenome) (tree : IsTree genome) (fuel : ℕ) (id : NodeId)
    (node : ViableNode)
    → Holds genome id node
    → tree.height < fuel
    → (ids : List NodeId) × (subtree_ids fuel genome id ≡ some (ok ids))
      × ((a : NodeId) → (contains ids a ≡ true) ↔ Below genome id a)
unfolding subtree_ids
subtree_ids_total genome tree fuel id node held enough =
    let (ids, e) = collect_subtree_total genome tree fuel id [] node held (omega arith) in
    (ids, e, subtree_ids-Below fuel genome id ids e)

-- A collection that starts at a node which is its own first child never returns, whatever the fuel.
pub collect_subtree_self_child :
    (fuel : ℕ) (genome : OrganizationalGenome) (id : NodeId) (node : ViableNode)
    (rest out : List NodeId)
    → Holds genome id node
    → node.children ≡ id ∷ rest
    → collect_subtree fuel genome id out ≡ none
unfolding collect_subtree collect_children
collect_subtree_self_child zero genome id node rest out held e = refl
collect_subtree_self_child (suc fuel) genome id node rest out held e =
    rw (held, collect_subtree)
      (rw (e, collect_children)
        (rw
          (
            collect_subtree_self_child fuel genome id node rest (out ++ id ∷ []) held e,
            collect_children,
          )
          refl))
