-- ===== src/Core/Genome/Rewritten.antt =====
-- A write to a node (crates/vsm-core/src/genome.rs, `get_node_mut`) that keeps its id, its parent and
-- its children keeps the tree; and trees with a bound on their height.
use vsm_agent_kernel.Base.{
  ◌≡◌, refl, sym, ◌∙◌, inl, inr, true, some, contains, string_key, arith, Bool-cases, Option-cases,
  ◌==◌, subst,
}
use vsm_agent_kernel.Base.TreeMap.{get, modify, get-modify}
use vsm_agent_kernel.Core.Id.{NodeId}
use vsm_agent_kernel.Core.Node.{ViableNode}
use vsm_agent_kernel.Core.Genome.{OrganizationalGenome}
use vsm_agent_kernel.Core.Genome.Tree.{IsTree, TreeUnder}

-- The fields that make up the tree are kept.
abbrev pub KeepsPlace : (ViableNode → ViableNode) → Type 0
KeepsPlace write =
    (n : ViableNode)
    → ((write n).id ≡ n.id)
      × ((write n).parent_id ≡ n.parent_id)
      × ((write n).children ≡ n.children)

module _ (genome : OrganizationalGenome) (id : NodeId) (write : ViableNode → ViableNode)
    (keeps : KeepsPlace write) where
  record IsRewritten (j : NodeId) (old new : ViableNode) : Type 0 where
    was : get j genome.nodes ≡ some old
    now : get j (modify id write genome.nodes) ≡ some new
    same_id : new.id ≡ old.id
    same_parent : new.parent_id ≡ old.parent_id
    same_children : new.children ≡ old.children

  keep :
      (j : NodeId) (old : ViableNode)
      → get j genome.nodes ≡ some old
      → (new : ViableNode) × IsRewritten j old new
  keep j old h = elim (Bool-cases (id == j)) [
    | inl e ↦ (
      write old,
      record {
        was = h;
        now = ground (arith, get-modify id j write genome.nodes);
        same_id = (keeps old).0;
        same_parent = (keeps old).1;
        same_children = (keeps old).2;
      },
    )
    | inr e ↦ (
      old,
      record {
        was = h;
        now = ground (arith, get-modify id j write genome.nodes);
        same_id = refl;
        same_parent = refl;
        same_children = refl;
      },
    )
  ]

  view :
      (j : NodeId) (new : ViableNode)
      → get j (modify id write genome.nodes) ≡ some new
      → (old : ViableNode) × IsRewritten j old new
  view j new h = elim (Option-cases (get j genome.nodes)) [
    | inl missing ↦ absurd (ground (arith, get-modify id j write genome.nodes))
    | inr (old, was) ↦
        let (new', k) = keep j old was in
        (old, subst (λ n. IsRewritten j old n) (ground (arith, k.now)) k)
  ]

  pub rewritten-IsTree :
      IsTree genome → TreeUnder genome.root_node_id (modify id write genome.nodes)
  rewritten-IsTree tree = record {
    depth = tree.depth;
    height = tree.height;
    root_held =
        let (root, h, e) = tree.root_held in
        let (new, k) = keep genome.root_node_id root h in (new, k.now, k.same_parent ∙ e);
    keyed = λ j new h. let (old, k) = view j new h in k.same_id ∙ tree.keyed j old k.was;
    only_root = λ j new h e.
        let (old, k) = view j new h in tree.only_root j old k.was (sym k.same_parent ∙ e);
    parent_held = λ j p new h e.
        let (old, k) = view j new h in
        let (m, hm, inside, d) = tree.parent_held j p old k.was (sym k.same_parent ∙ e) in
        let (m', k') = keep p m hm in
        (m', k'.now, subst (λ z. contains z j ≡ true) (sym k'.same_children) inside, d);
    child_held = λ j c new h inside.
        let (old, k) = view j new h in
        let (m, hm, up) =
          tree.child_held j c old k.was (subst (λ z. contains z c ≡ true) k.same_children inside) in
        let (m', k') = keep c m hm in (m', k'.now, k'.same_parent ∙ up);
    bounded = λ j new h. let (old, k) = view j new h in tree.bounded j old k.was;
  }

  pub height-rewritten : (tree : IsTree genome) → (rewritten-IsTree tree).height ≡ tree.height
  unfolding rewritten-IsTree
  height-rewritten tree = refl
