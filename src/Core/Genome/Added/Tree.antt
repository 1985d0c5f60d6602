-- ===== src/Core/Genome/Added/Tree.antt =====
-- A tree to which a fresh childless node is added (crates/vsm-core/src/genome.rs, `add_child`) is a
-- tree.
use vsm_agent_kernel.Base.{
  ℕ, suc, ◌≤◌, String, ◌≡◌, refl, sym, ap, ◌∙◌, ◌⊎◌, inl, inr, true, false, none, some, [], ◌∷◌,
  contains, contains-append, contains-singleton, string_key, arith, Bool-cases, Option-cases,
  ==_refl, ==_eq, ◌==◌, subst, if◌then◌else◌,
}
use vsm_agent_kernel.Base.TreeMap.{get, insert, get-insert, get-modify}
use vsm_agent_kernel.Core.Id.{NodeId}
use vsm_agent_kernel.Core.Node.{ViableNode}
use vsm_agent_kernel.Core.Genome.{OrganizationalGenome, World, add_child}
use vsm_agent_kernel.Core.Genome.Tree.{Holds, IsTree}
use vsm_agent_kernel.Core.Genome.Added.{
  under, with_child, nodes_with, add_child_no_parent, add_child_taken, add_child-added,
}

module _ (genome : OrganizationalGenome) (parent_id : NodeId) (parent child : ViableNode)
    (held : Holds genome parent_id parent) (fresh : get child.id genome.nodes ≡ none) where
  -- The genome after the addition; its channels are of no concern here.
  abbrev grown : OrganizationalGenome
  grown = record genome { nodes = nodes_with genome.nodes parent_id child }

  get_grown :
      (j : NodeId)
      → get j grown.nodes ≡ (
          if child.id == j
          then some (under parent_id child)
          else if parent_id == j
          then some (with_child child.id parent)
          else get j genome.nodes)
  get_grown j = ground (
    arith,
    get-modify parent_id j (with_child child.id)
        (insert child.id (under parent_id child) genome.nodes),
    get-insert child.id j (under parent_id child) genome.nodes,
    string_key.beq_iff child.id j,
    string_key.beq_iff parent_id j,
  )

  -- A node of the old genome is still there, with the same parent and at least its children.
  record IsKept (j : NodeId) (old node : ViableNode) : Type 0 where
    was : Holds genome j old
    same_id : node.id ≡ old.id
    same_parent : node.parent_id ≡ old.parent_id
    more : (c : NodeId) → contains old.children c ≡ true → contains node.children c ≡ true
    no_more :
        (c : NodeId)
        → contains node.children c ≡ true
        → (contains old.children c ≡ true) ⊎ ((c ≡ child.id) × (j ≡ parent_id))

  unchanged-IsKept : (j : NodeId) (old : ViableNode) → Holds genome j old → IsKept j old old
  unchanged-IsKept j old h = record {
    was = h;
    same_id = refl;
    same_parent = refl;
    more = λ c m. m;
    no_more = λ c m. inl m;
  }

  parent-IsKept : IsKept parent_id parent (with_child child.id parent)
  parent-IsKept = record {
    was = held;
    same_id = refl;
    same_parent = refl;
    more = λ c m. ground (arith, contains-append parent.children (child.id ∷ []) c);
    no_more = λ c m. ground (
      arith,
      contains-append parent.children (child.id ∷ []) c,
      contains-singleton child.id c,
      string_key.beq_iff child.id c,
    );
  }

  -- What the grown genome holds: the child, or a node that was there.
  view :
      (j : NodeId) (node : ViableNode)
      → Holds grown j node
      → ((j ≡ child.id) × (node ≡ under parent_id child)) ⊎ ((old : ViableNode) × IsKept j old node)
  view j node h = elim (Bool-cases (child.id == j)) [
    | inl e ↦ inl (sym (==_eq e), ground (arith, get_grown j))
    | inr e ↦ elim (Bool-cases (parent_id == j)) [
      | inl p ↦ inr (
        parent,
        subst (λ n. IsKept j parent n) (ground (arith, get_grown j))
            (subst (λ z. IsKept z parent (with_child child.id parent)) (==_eq p) parent-IsKept),
      )
      | inr p ↦ inr (node, unchanged-IsKept j node (ground (arith, get_grown j)))
    ]
  ]

  old_ne : (j : NodeId) (old : ViableNode) → Holds genome j old → (child.id == j) ≡ false
  old_ne j old h = ground (arith, string_key.beq_iff child.id j)

  keep :
      (j : NodeId) (old : ViableNode)
      → Holds genome j old
      → (node : ViableNode) × Holds grown j node × IsKept j old node
  keep j old h = elim (Bool-cases (parent_id == j)) [
    | inl p ↦ (
      with_child child.id parent,
      ground (arith, get_grown j, old_ne j old h),
      subst (λ o. IsKept j o (with_child child.id parent))
          (ground (arith, string_key.beq_iff parent_id j))
          (subst (λ z. IsKept z parent (with_child child.id parent)) (==_eq p) parent-IsKept),
    )
    | inr p ↦ (old, ground (arith, get_grown j, old_ne j old h), unchanged-IsKept j old h)
  ]

  child_there : Holds grown child.id (under parent_id child)
  child_there = ground (arith, get_grown child.id, ==_refl child.id)

  module _ (tree : IsTree genome) (childless : child.children ≡ []) where
    depth : NodeId → ℕ
    depth j = if child.id == j then suc (tree.depth parent_id) else tree.depth j

    depth_old : (j : NodeId) (old : ViableNode) → Holds genome j old → depth j ≡ tree.depth j
    unfolding depth
    depth_old j old h = rw (old_ne j old h)

    depth_child : depth child.id ≡ suc (tree.depth parent_id)
    unfolding depth
    depth_child = rw (==_refl child.id)

    -- The child's parent holds it.
    parent_there :
        (up : ViableNode) × Holds grown parent_id up
        × (contains up.children child.id ≡ true)
        × (depth child.id ≡ suc (depth parent_id))
    parent_there = (
      with_child child.id parent,
      ground (arith, get_grown parent_id, old_ne parent_id parent held, ==_refl parent_id),
      ground (
        arith,
        contains-append parent.children (child.id ∷ []) child.id,
        contains-singleton child.id child.id,
        ==_refl child.id,
      ),
      omega (arith, depth_child, depth_old parent_id parent held),
    )

    grown_parent :
        (id q : NodeId) (node : ViableNode)
        → Holds grown id node
        → node.parent_id ≡ some q
        → (up : ViableNode) × Holds grown q up
          × (contains up.children id ≡ true)
          × (depth id ≡ suc (depth q))
    grown_parent id q node h e = elim (view id node h) [
      | inl (here, is_child) ↦
          subst
            (λ z.
              (up : ViableNode) × Holds grown z up
              × (contains up.children id ≡ true)
              × (depth id ≡ suc (depth z)))
            (let same : parent_id ≡ q =
                ground (arith, ap (λ (n : ViableNode). n.parent_id) is_child) in
              same)
            (subst
              (λ z.
                (up : ViableNode) × Holds grown parent_id up
                × (contains up.children z ≡ true)
                × (depth z ≡ suc (depth parent_id)))
              (sym here) parent_there)
      | inr (old, k) ↦
          let (m, held', inside, d) = tree.parent_held id q old k.was (sym k.same_parent ∙ e) in
          let (up, there, k') = keep q m held' in
          (up, there, k'.more id inside, omega (arith, depth_old id old k.was, depth_old q m held'))
    ]

    grown_child :
        (id c : NodeId) (node : ViableNode)
        → Holds grown id node
        → contains node.children c ≡ true
        → (below : ViableNode) × Holds grown c below × (below.parent_id ≡ some id)
    unfolding contains
    grown_child id c node h m = elim (view id node h) [
      | inl (here, is_child) ↦
          absurd (ground (arith, ap (λ (n : ViableNode). n.children) is_child, childless))
      | inr (old, k) ↦ elim (k.no_more c m) [
        | inl was ↦
            let (b, held', up) = tree.child_held id c old k.was was in
            let (b', there, k') = keep c b held' in (b', there, k'.same_parent ∙ up)
        | inr (new, at) ↦ (
          under parent_id child,
          subst (λ z. Holds grown z (under parent_id child)) (sym new) child_there,
          ap some (sym at),
        )
      ]
    ]

    grown_bounded :
        (id : NodeId) (node : ViableNode) → Holds grown id node → depth id ≤ suc tree.height
    grown_bounded id node h = elim (view id node h) [
      | inl (here, _) ↦
          omega (arith, ap depth here, depth_child, tree.bounded parent_id parent held)
      | inr (old, k) ↦ omega (arith, depth_old id old k.was, tree.bounded id old k.was)
    ]

    pub grown-IsTree : IsTree grown
    grown-IsTree = record {
      depth = depth;
      height = suc tree.height;
      root_held =
          let (root, h, e) = tree.root_held in
          let (node, h', k) = keep genome.root_node_id root h in (node, h', k.same_parent ∙ e);
      keyed = λ id node h. elim (view id node h) [
        | inl (here, is_child) ↦ ground arith
        | inr (old, k) ↦ k.same_id ∙ tree.keyed id old k.was
      ];
      only_root = λ id node h e. elim (view id node h) [
        | inl (here, is_child) ↦ absurd (ground arith)
        | inr (old, k) ↦ tree.only_root id old k.was (sym k.same_parent ∙ e)
      ];
      parent_held = λ id q node. grown_parent id q node;
      child_held = λ id c node. grown_child id c node;
      bounded = grown_bounded;
    }

    pub height-grown : grown-IsTree.height ≡ suc tree.height
    unfolding grown-IsTree
    height-grown = refl

-- Whatever `add_child` does, a tree stays a tree if the child comes without children of its own.
pub add_child-IsTree :
    (uuid : ℕ → String) (w : World) (parent_id : NodeId) (child : ViableNode)
    → child.children ≡ []
    → IsTree w.genome
    → IsTree (add_child uuid w parent_id child).1.genome
add_child-IsTree uuid w parent_id child childless tree =
    elim (Option-cases (get parent_id w.genome.nodes)) [
      | inl missing ↦ rw (add_child_no_parent uuid w parent_id child missing) tree
      | inr (parent, held) ↦ elim (Option-cases (get child.id w.genome.nodes)) [
        | inl fresh ↦
            rw (add_child-added uuid w parent_id child parent held fresh)
              (grown-IsTree w.genome parent_id parent child held fresh tree childless)
        | inr (old, taken) ↦ rw (add_child_taken uuid w parent_id child parent old held taken) tree
      ]
    ]
