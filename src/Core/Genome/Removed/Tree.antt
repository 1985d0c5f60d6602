-- ===== src/Core/Genome/Removed/Tree.antt =====
-- A tree from which `remove_subtree` (crates/vsm-core/src/genome.rs) has cut a subtree is a tree.
use vsm_agent_kernel.Base.{
  suc, ◌≡◌, ◌≢◌, refl, sym, ◌∙◌, ◌⊎◌, inl, inr, true, false, none, some, List, contains,
  contains-without, string_key, arith, Bool-cases, Option-cases, ==_refl, ==_eq, ◌==◌, subst,
  if◌then◌else◌,
}
use vsm_agent_kernel.Base.TreeMap.{get, option_map}
use vsm_agent_kernel.Core.Id.{NodeId}
use vsm_agent_kernel.Core.Node.{ViableNode}
use vsm_agent_kernel.Core.Genome.{OrganizationalGenome, cut}
use vsm_agent_kernel.Core.Genome.Tree.{Holds, IsTree, Below, here, down}
use vsm_agent_kernel.Core.Genome.Subtree.{Collected, IsClosed-Below}
use vsm_agent_kernel.Core.Genome.Removed.{get-cut, without_child}

module _ (genome : OrganizationalGenome) (id : NodeId) (node : ViableNode) (removed : List NodeId)
    (tree : IsTree genome) (not_root : id ≢ genome.root_node_id) (held : Holds genome id node)
    (collected : Collected genome id removed) where
  abbrev left : OrganizationalGenome
  left = cut genome id removed

  -- The cut node has a parent, since it is not the root.
  parent_of_cut : (p : NodeId) × (node.parent_id ≡ some p)
  parent_of_cut = elim (Option-cases node.parent_id) [
    | inl e ↦ absurd (not_root (tree.only_root id node held e))
    | inr e ↦ e
  ]

  abbrev parent_id : NodeId
  parent_id = parent_of_cut.0

  -- A node below the cut one is that one, or its parent is among the removed.
  removed_up :
      {a : NodeId}
      → Below genome id a
      → (p : NodeId) (n : ViableNode) → Holds genome a n
      → n.parent_id ≡ some p
      → (a ≡ id) ⊎ (contains removed p ≡ true)
  removed_up here p n h e = inl refl
  removed_up {a} (down {b = b} below m hb i) p n h e =
      let (c, hc, up) = tree.child_held b a m hb i in
      let same : b ≡ p = ground arith in
      inr (
        subst (λ z. contains removed z ≡ true) same
          (IsClosed-Below genome removed collected.closed collected.top below))

  get_left :
      (j : NodeId)
      → get j left.nodes ≡ (
          if contains removed j
          then none
          else if parent_id == j
          then option_map (without_child id) (get j genome.nodes)
          else get j genome.nodes)
  get_left = get-cut genome id removed node parent_id held parent_of_cut.1

  -- A node that stays: as it was, but for the cut child of the cut node's parent.
  record Stays (j : NodeId) (old new : ViableNode) : Type 0 where
    was : Holds genome j old
    kept : contains removed j ≡ false
    same_id : new.id ≡ old.id
    same_parent : new.parent_id ≡ old.parent_id
    children : (c : NodeId) → (c == id) ≡ false → contains new.children c ≡ contains old.children c
    not_cut : contains new.children id ≡ false

  parent-Stays :
      (old : ViableNode)
      → Holds genome parent_id old
      → contains removed parent_id ≡ false
      → Stays parent_id old (without_child id old)
  parent-Stays old h k = record {
    was = h;
    kept = k;
    same_id = refl;
    same_parent = refl;
    children = λ c ne. ground (arith, contains-without id c old.children);
    not_cut = ground (arith, contains-without id id old.children, ==_refl id);
  }

  -- Only the cut node's parent lists it as a child.
  only_parent_lists :
      (j : NodeId) (old : ViableNode)
      → Holds genome j old
      → (parent_id == j) ≡ false
      → contains old.children id ≡ false
  only_parent_lists j old h ne = elim (Bool-cases (contains old.children id)) [
    | inr e ↦ e
    | inl e ↦
        let (n, hn, up) = tree.child_held j id old h e in
        absurd (ground (arith, parent_of_cut.1, string_key.beq_iff parent_id j))
  ]

  other-Stays :
      (j : NodeId) (old : ViableNode)
      → Holds genome j old
      → contains removed j ≡ false
      → (parent_id == j) ≡ false
      → Stays j old old
  other-Stays j old h k ne = record {
    was = h;
    kept = k;
    same_id = refl;
    same_parent = refl;
    children = λ c _. refl;
    not_cut = only_parent_lists j old h ne;
  }

  stay :
      (j : NodeId) (old : ViableNode)
      → Holds genome j old
      → contains removed j ≡ false
      → (new : ViableNode) × Holds left j new × Stays j old new
  stay j old h k = elim (Bool-cases (parent_id == j)) [
    | inl e ↦
        let p : parent_id ≡ j = ==_eq e in
        (
          without_child id old,
          ground (arith, get_left j),
          subst (λ z. Stays z old (without_child id old)) p
              (parent-Stays old (subst (λ z. Holds genome z old) (sym p) h)
                (subst (λ z. contains removed z ≡ false) (sym p) k)),
        )
    | inr e ↦ (old, ground (arith, get_left j), other-Stays j old h k e)
  ]

  view : (j : NodeId) (new : ViableNode) → Holds left j new → (old : ViableNode) × Stays j old new
  view j new h = elim (Option-cases (get j genome.nodes)) [
    | inl missing ↦ absurd (ground (arith, get_left j))
    | inr (old, was) ↦ elim (Bool-cases (contains removed j)) [
      | inl gone ↦ absurd (ground (arith, get_left j))
      | inr kept ↦
          let (new', h', s) = stay j old was kept in
          (old, subst (λ n. Stays j old n) (ground arith) s)
    ]
  ]

  root_stays : contains removed genome.root_node_id ≡ false
  root_stays = elim (Bool-cases (contains removed genome.root_node_id)) [
    | inr e ↦ e
    | inl e ↦ absurd (not_below (collected.below genome.root_node_id e) refl)
  ]
    where
      not_below : {a : NodeId} → Below genome id a → ¬ (a ≡ genome.root_node_id)
      not_below here same = not_root same
      not_below {a} (down {b = b} below m hb i) same =
          let (c, hc, up) = tree.child_held b a m hb i in
          let (root, hr, top) = tree.root_held in ground arith

  left_parent :
      (j q : NodeId) (new : ViableNode)
      → Holds left j new
      → new.parent_id ≡ some q
      → (up : ViableNode) × Holds left q up
        × (contains up.children j ≡ true)
        × (tree.depth j ≡ suc (tree.depth q))
  left_parent j q new h e =
      let (old, s) = view j new h in
      let (m, hm, inside, d) = tree.parent_held j q old s.was (sym s.same_parent ∙ e) in
      let j_ne : (j == id) ≡ false =
        ground (arith, string_key.beq_iff j id, collected.top, s.kept) in
      let (up, hu, s') = stay q m hm (parent_kept j q old s m hm inside) in
      (up, hu, s'.children j j_ne ∙ inside, d)
    where
      parent_kept :
          (j q : NodeId) (old : ViableNode) {new : ViableNode}
          → Stays j old new
          → (m : ViableNode) → Holds genome q m
          → contains m.children j ≡ true
          → contains removed q ≡ false
      parent_kept j q old s m hm inside = elim (Bool-cases (contains removed q)) [
        | inr e ↦ e
        | inl e ↦
            let (n, hn, into) = collected.closed q e in
            let gone : contains removed j ≡ true = into j (ground arith) in
            absurd (ground (arith, s.kept))
      ]

  left_child :
      (j c : NodeId) (new : ViableNode)
      → Holds left j new
      → contains new.children c ≡ true
      → (child : ViableNode) × Holds left c child × (child.parent_id ≡ some j)
  left_child j c new h inside =
      let (old, s) = view j new h in
      let c_ne : (c == id) ≡ false = ground (arith, s.not_cut, string_key.beq_iff c id) in
      let (child, hc, up) = tree.child_held j c old s.was (sym (s.children c c_ne) ∙ inside) in
      let kept : contains removed c ≡ false = elim (Bool-cases (contains removed c)) [
        | inr e ↦ e
        | inl e ↦ elim (removed_up (collected.below c e) j child hc up) [
          | inl same ↦ absurd (ground (arith, string_key.beq_iff c id))
          | inr gone ↦ absurd (ground (arith, s.kept))
        ]
      ] in
      let (child', hc', s') = stay c child hc kept in (child', hc', s'.same_parent ∙ up)

  pub left-IsTree : IsTree left
  unfolding cut
  left-IsTree = record {
    depth = tree.depth;
    height = tree.height;
    root_held =
        let (root, h, e) = tree.root_held in
        let (new, h', s) = stay genome.root_node_id root h root_stays in
        (new, h', s.same_parent ∙ e);
    keyed = λ j new h. let (old, s) = view j new h in s.same_id ∙ tree.keyed j old s.was;
    only_root = λ j new h e.
        let (old, s) = view j new h in tree.only_root j old s.was (sym s.same_parent ∙ e);
    parent_held = λ j q new. left_parent j q new;
    child_held = λ j c new. left_child j c new;
    bounded = λ j new h. let (old, s) = view j new h in tree.bounded j old s.was;
  }

  pub height-left : left-IsTree.height ≡ tree.height
  unfolding left-IsTree
  height-left = refl
