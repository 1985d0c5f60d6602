-- ===== src/Core/Genome/WellFormed.antt =====
-- The invariant of a genome (crates/vsm-core/src/genome.rs): its nodes form a tree and its channels
-- end in nodes of it. `new`, `add_child` and `remove_subtree` establish and keep it.
use vsm_agent_kernel.Base.{
  ℕ, ◌<◌, String, ◌≡◌, ◌≢◌, refl, sym, ◌↔◌, inl, inr, true, false, Option, none, some, List, [],
  contains, retain, string_key, arith, Bool-cases, Option-cases, ==_refl, ==_eq, ◌==◌, subst,
  if◌then◌else◌, All, All-map, All-append, All-retain,
}
use vsm_agent_kernel.Base.Results.{Result, ok, err}
use vsm_agent_kernel.Base.TreeMap.{
  TreeMap, get, insert, get-insert, get-modify, option_map, is_some,
}
use vsm_agent_kernel.Core.Id.{NodeId, GenomeId}
use vsm_agent_kernel.Core.Channel.{ChannelConfig, standard, bundle_channels}
use vsm_agent_kernel.Core.Node.{ViableNode}
use vsm_agent_kernel.Core.Genome.{
  OrganizationalGenome, World, GenomeError, node_not_found, cannot_remove_root, new, add_child,
  remove_subtree, cut, keeps_channel, end_removed, subtree_ids,
}
use vsm_agent_kernel.Core.Genome.Tree.{Holds, IsTree, Below}
use vsm_agent_kernel.Core.Genome.Added.{
  under, with_child, nodes_with, added, add_child_no_parent, add_child_taken, add_child-added,
}
use vsm_agent_kernel.Core.Genome.Added.Tree.{grown-IsTree}
use vsm_agent_kernel.Core.Genome.Subtree.{Collected, collect_subtree-Collected, subtree_ids-Below}
use vsm_agent_kernel.Core.Genome.Termination.{collect_subtree_total}
use vsm_agent_kernel.Core.Genome.Within.{new-Within}
use vsm_agent_kernel.Core.Genome.Removed.{
  remove_subtree_root, remove_subtree_missing, remove_subtree-cut, get-cut, without_child,
}
use vsm_agent_kernel.Core.Genome.Removed.Tree.{left-IsTree}

-- An open end, or a node that is there.
abbrev pub EndHeld : TreeMap NodeId ViableNode → Option NodeId → Type 0
EndHeld nodes none = Unit {0}
EndHeld nodes (some id) = is_some (get id nodes) ≡ true

abbrev pub EndsHeld : TreeMap NodeId ViableNode → ChannelConfig → Type 0
EndsHeld nodes ch = EndHeld nodes ch.from × EndHeld nodes ch.to

pub record IsWellFormed (genome : OrganizationalGenome) : Type 0 where
  pub tree : IsTree genome
  pub ends : All (EndsHeld genome.nodes) genome.channels

EndsHeld-mono :
    (m m' : TreeMap NodeId ViableNode)
    → ((a : NodeId) → is_some (get a m) ≡ true → is_some (get a m') ≡ true)
    → (ch : ChannelConfig) → EndsHeld m ch
    → EndsHeld m' ch
EndsHeld-mono m m' more ch h = (go ch.from h.0, go ch.to h.1)
  where
    go : (o : Option NodeId) → EndHeld m o → EndHeld m' o
    go none k = tt
    go (some a) k = more a k

module _ (uuid : ℕ → String) (w : World) (parent_id : NodeId) (parent child : ViableNode)
    (held : Holds w.genome parent_id parent) (fresh : get child.id w.genome.nodes ≡ none) where
  abbrev nodes' : TreeMap NodeId ViableNode
  nodes' = nodes_with w.genome.nodes parent_id child

  get_nodes' :
      (j : NodeId)
      → is_some (get j nodes') ≡ (if child.id == j then true else is_some (get j w.genome.nodes))
  get_nodes' j = ground (
    arith,
    get-modify parent_id j (with_child child.id)
        (insert child.id (under parent_id child) w.genome.nodes),
    get-insert child.id j (under parent_id child) w.genome.nodes,
  )

  parent_kept : is_some (get parent_id nodes') ≡ true
  parent_kept = ground (arith, get_nodes' parent_id)

  child_kept : is_some (get child.id nodes') ≡ true
  child_kept = ground (arith, get_nodes' child.id, ==_refl child.id)

  added-ends :
      All (EndsHeld w.genome.nodes) w.genome.channels
      → All (EndsHeld nodes') (added uuid w parent_id child).genome.channels
  added-ends ends =
      All-append (EndsHeld nodes') w.genome.channels
        (bundle_channels (standard uuid w.issued parent_id child.id))
        (All-map (EndsHeld-mono w.genome.nodes nodes' (λ a h. ground (arith, get_nodes' a)))
          w.genome.channels ends)
        (
          (parent_kept, child_kept),
          (
            (parent_kept, child_kept),
            (
              (parent_kept, child_kept),
              ((parent_kept, child_kept), ((child_kept, parent_kept), tt)),
            ),
          ),
        )

pub add_child-IsWellFormed :
    (uuid : ℕ → String) (w : World) (parent_id : NodeId) (child : ViableNode)
    → child.children ≡ []
    → IsWellFormed w.genome
    → IsWellFormed (add_child uuid w parent_id child).1.genome
add_child-IsWellFormed uuid w parent_id child childless ok_before =
    elim (Option-cases (get parent_id w.genome.nodes)) [
      | inl missing ↦ rw (add_child_no_parent uuid w parent_id child missing) ok_before
      | inr (parent, held) ↦ elim (Option-cases (get child.id w.genome.nodes)) [
        | inl fresh ↦ rw (add_child-added uuid w parent_id child parent held fresh) (record {
          tree = grown-IsTree w.genome parent_id parent child held fresh ok_before.tree childless;
          ends = added-ends uuid w parent_id parent child held fresh ok_before.ends;
        })
        | inr (old, taken) ↦
            rw (add_child_taken uuid w parent_id child parent old held taken) ok_before
      ]
    ]

-- A genome with one node that has neither a parent nor children is well-formed.
pub new-IsWellFormed :
    (id : GenomeId) (root : ViableNode)
    → root.parent_id ≡ none
    → root.children ≡ []
    → IsWellFormed (new id root)
unfolding new
new-IsWellFormed id root no_parent no_children = record {
  tree = unfold new in (new-Within id root no_parent no_children).0;
  ends = tt;
}

module _ (genome : OrganizationalGenome) (id : NodeId) (node : ViableNode) (removed : List NodeId)
    (parent_id : NodeId) (held : Holds genome id node) (up : node.parent_id ≡ some parent_id) where
  -- A node that is there and not removed is there after the cut.
  cut_keeps :
      (a : NodeId)
      → contains removed a ≡ false
      → is_some (get a genome.nodes) ≡ true
      → is_some (get a (cut genome id removed).nodes) ≡ true
  cut_keeps a kept h = ground (arith, get-cut genome id removed node parent_id held up a)

  end_kept :
      (o : Option NodeId)
      → end_removed removed o ≡ false
      → EndHeld genome.nodes o
      → EndHeld (cut genome id removed).nodes o
  unfolding end_removed
  end_kept none e h = tt
  end_kept (some a) e h = cut_keeps a e h

  cut-ends :
      All (EndsHeld genome.nodes) genome.channels
      → All (EndsHeld (cut genome id removed).nodes) (cut genome id removed).channels
  cut-ends ends =
      unfold cut in
      All-retain (keeps_channel removed)
        (λ ch kept h. (
          end_kept ch.from (unfold keeps_channel in ground arith) h.0,
          end_kept ch.to (unfold keeps_channel in ground arith) h.1,
        ))
        genome.channels ends

-- On a tree every node but the root has a parent.
has_parent :
    (genome : OrganizationalGenome) (id : NodeId) (node : ViableNode)
    → IsTree genome
    → id ≢ genome.root_node_id
    → Holds genome id node
    → (p : NodeId) × (node.parent_id ≡ some p)
has_parent genome id node tree not_root held = elim (Option-cases node.parent_id) [
  | inl e ↦ absurd (not_root (tree.only_root id node held e))
  | inr e ↦ e
]

-- From a well-formed genome, with fuel above its height, `remove_subtree` returns, with a node list or
-- an error, and leaves a well-formed genome.
pub remove_subtree-IsWellFormed :
    (fuel : ℕ) (genome : OrganizationalGenome) (id : NodeId) (before : IsWellFormed genome)
    → before.tree.height < fuel
    → (r : Result GenomeError (List NodeId)) × (after : OrganizationalGenome) × (remove_subtree fuel
          genome id
        ≡ some (r, after))
      × IsWellFormed after
remove_subtree-IsWellFormed fuel genome id before enough =
    elim (Bool-cases (id == genome.root_node_id)) [
      | inl root ↦
          (err cannot_remove_root, genome, remove_subtree_root fuel genome id (==_eq root), before)
      | inr not_root ↦
          let ne : id ≢ genome.root_node_id =
            λ e. ground (arith, string_key.beq_iff id genome.root_node_id) in
          elim (Option-cases (get id genome.nodes)) [
            | inl missing ↦ (
              err (node_not_found id),
              genome,
              remove_subtree_missing fuel genome id ne missing,
              before,
            )
            | inr (node, held) ↦
                let (removed, e) =
                  collect_subtree_total genome before.tree fuel id [] node held (omega arith) in
                let (ids, same, c) = collect_subtree-Collected genome fuel id [] removed e in
                let (p, up) = has_parent genome id node before.tree ne held in
                (
                  ok removed,
                  cut genome id removed,
                  remove_subtree-cut fuel genome id node removed ne held e,
                  record {
                    tree =
                        left-IsTree genome id node removed before.tree ne held
                          (subst (Collected genome id) (sym same) c);
                    ends = cut-ends genome id node removed p held up before.ends;
                  },
                )
          ]
    ]

-- On a tree, with fuel above its height, `remove_subtree` of a node other than the root returns exactly
-- the nodes below it. They are gone afterwards, the parent has lost the child, every other node is as
-- it was, and the channels that are left are those with no end at a removed node.
pub remove_subtree_exact :
    (fuel : ℕ) (genome : OrganizationalGenome) (id : NodeId) (node : ViableNode)
    (parent_id : NodeId) (tree : IsTree genome)
    → id ≢ genome.root_node_id
    → Holds genome id node
    → node.parent_id ≡ some parent_id
    → tree.height < fuel
    → (removed : List NodeId) × (after : OrganizationalGenome) × (remove_subtree fuel genome id
        ≡ some (ok removed, after))
      × ((a : NodeId) → (contains removed a ≡ true) ↔ Below genome id a)
      × ((a : NodeId)
          → get a after.nodes ≡ (
              if contains removed a
              then none
              else if parent_id == a
              then option_map (without_child id) (get a genome.nodes)
              else get a genome.nodes))
      × (after.channels ≡ retain (keeps_channel removed) genome.channels)
unfolding cut
remove_subtree_exact fuel genome id node parent_id tree ne held up enough =
    let (removed, e) = collect_subtree_total genome tree fuel id [] node held (omega arith) in
    (
      removed,
      cut genome id removed,
      remove_subtree-cut fuel genome id node removed ne held e,
      subtree_ids-Below fuel genome id removed (unfold subtree_ids in e),
      get-cut genome id removed node parent_id held up,
      refl,
    )
