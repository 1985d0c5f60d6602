-- ===== src/Core/Genome/Ancestors.antt =====
-- `ancestor_ids` (crates/vsm-core/src/genome.rs): its loop returns on a tree, with the nodes above.
use mathlib.Core.List.{append_assoc, append-nil}
use vsm_agent_kernel.Base.{
  ℕ, zero, suc, ◌≤◌, ◌≡◌, refl, sym, ap, ◌∙◌, ◌⊎◌, ◌↔◌, inl, inr, true, Option, none, some, List,
  [], ◌∷◌, ◌++◌, contains, string_key, arith, Bool-cases, ==_eq, ◌==◌, subst,
}
use vsm_agent_kernel.Base.Results.{ok}
use vsm_agent_kernel.Core.Id.{NodeId}
use vsm_agent_kernel.Core.Node.{ViableNode}
use vsm_agent_kernel.Core.Genome.{OrganizationalGenome, climb, ancestor_ids}
use vsm_agent_kernel.Core.Genome.Tree.{Holds, IsTree, Below, here, down}

-- `ids` holds the nodes that `id` lies below, itself apart.
abbrev pub AreAbove : OrganizationalGenome → NodeId → List NodeId → Type 0
AreAbove genome id ids = (a : NodeId) → Below genome a id ↔ ((a ≡ id) ⊎ (contains ids a ≡ true))

module _ (genome : OrganizationalGenome) (tree : IsTree genome) where
  Below-top :
      {a id : NodeId}
      → Below genome a id
      → (node : ViableNode) → Holds genome id node
      → node.parent_id ≡ none
      → a ≡ id
  Below-top here node held top = refl
  Below-top {a} {id} (down {b = b} below m hb i) node held top =
      let (c, hc, up) = tree.child_held b id m hb i in absurd (ground arith)

  -- A proper ancestor lies above the parent.
  Below-parent :
      {a id : NodeId}
      → Below genome a id
      → (p : NodeId) (node : ViableNode) → Holds genome id node
      → node.parent_id ≡ some p
      → (a ≡ id) ⊎ Below genome a p
  Below-parent here p node held e = inl refl
  Below-parent {a} {id} (down {b = b} below m hb i) p node held e =
      let (c, hc, up) = tree.child_held b id m hb i in
      let same : b ≡ p = ground arith in inr (subst (λ z. Below genome a z) same below)

  AreAbove-cons :
      (id p : NodeId) (node parent : ViableNode) (ids : List NodeId)
      → Holds genome id node
      → node.parent_id ≡ some p
      → Holds genome p parent
      → contains parent.children id ≡ true
      → AreAbove genome p ids
      → AreAbove genome id (p ∷ ids)
  unfolding contains
  AreAbove-cons id p node parent ids held e held' inside above a = (
    λ below. elim (Below-parent below p node held e) [
      | inl same ↦ inl same
      | inr up ↦ elim ((above a).0 up) [
        | inl is_p ↦ inr (ground (arith, string_key.beq_iff p a))
        | inr m ↦ inr (ground arith)
      ]
    ],
    elim [
      | inl same ↦ subst (λ z. Below genome z id) (sym same) here
      | inr m ↦
          let up : (a ≡ p) ⊎ (contains ids a ≡ true) = elim (Bool-cases (p == a)) [
            | inl q ↦ inl (sym (==_eq q))
            | inr q ↦ inr (ground arith)
          ] in
          down ((above a).1 up) parent held' inside
    ],
  )

  climb_above :
      (fuel : ℕ) (id : NodeId) (node : ViableNode) (q : Option NodeId) (acc : List NodeId)
      → Holds genome id node
      → node.parent_id ≡ q
      → tree.depth id ≤ fuel
      → (ids : List NodeId) × (climb fuel genome q acc ≡ some (ok (acc ++ ids)))
        × AreAbove genome id ids
  unfolding climb contains
  climb_above fuel id node none acc held e enough = (
    [],
    rw (append-nil acc),
    λ a. (
      λ below. inl (Below-top below node held e),
      elim [
        | inl same ↦ subst (λ z. Below genome z id) (sym same) here
        | inr m ↦ absurd (ground arith)
      ],
    ),
  )
  climb_above zero id node (some p) acc held e enough =
      let (m, hm, inside, d) = tree.parent_held id p node held e in absurd (omega arith)
  climb_above (suc fuel) id node (some p) acc held e enough =
      let (m, hm, inside, d) = tree.parent_held id p node held e in
      let (ids, r, above) =
        climb_above fuel p m m.parent_id (acc ++ p ∷ []) hm refl (omega arith) in
      (
        p ∷ ids,
        rw (hm, climb) (r ∙ ap (λ (z : List NodeId). some (ok z)) (append_assoc acc (p ∷ []) ids)),
        AreAbove-cons id p node m ids held e hm inside above,
      )

-- On a tree `ancestor_ids` returns for every node of the genome, whatever the fuel from the height
-- on, and lists exactly the nodes other than `id` that `id` lies below: a node is `id` or one of its
-- ancestors exactly when `id` lies below it along child pointers.
pub ancestor_ids_total :
    (genome : OrganizationalGenome) (tree : IsTree genome) (fuel : ℕ) (id : NodeId)
    (node : ViableNode)
    → Holds genome id node
    → tree.height ≤ fuel
    → (ids : List NodeId) × (ancestor_ids fuel genome id ≡ some (ok ids))
      × ((a : NodeId) → Below genome a id ↔ ((a ≡ id) ⊎ (contains ids a ≡ true)))
unfolding ancestor_ids
ancestor_ids_total genome tree fuel id node held enough =
    let (ids, e, above) =
      climb_above genome tree fuel id node node.parent_id [] held refl
        (omega (arith, tree.bounded id node held)) in
    (ids, rw (held, ancestor_ids) e, above)
