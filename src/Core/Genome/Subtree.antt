-- ===== src/Core/Genome/Subtree.antt =====
-- `collect_subtree` (crates/vsm-core/src/genome.rs) against the descent relation `Below`.
use mathlib.Core.List.{append-nil, append_assoc}
use vsm_agent_kernel.Base.{
  ℕ, zero, suc, ◌≡◌, refl, sym, ap, ◌∙◌, ◌⊎◌, ◌↔◌, inl, inr, true, Option, none, some, List, [],
  ◌∷◌, ◌++◌, contains, contains-append, string_key, arith, or-cases, or-left, or-right, ==_refl,
  ==_eq, ◌==◌, subst,
}
use vsm_agent_kernel.Base.Results.{Result, ok, err}
use vsm_agent_kernel.Base.TreeMap.{get}
use vsm_agent_kernel.Core.Id.{NodeId}
use vsm_agent_kernel.Core.Node.{ViableNode}
use vsm_agent_kernel.Core.Genome.{
  OrganizationalGenome, GenomeError, collect_children, collect_subtree, subtree_ids,
}
use vsm_agent_kernel.Core.Genome.Tree.{Holds, Below, here, down, Below-step}

-- A list of nodes that are all there and whose children are listed too.
abbrev pub IsClosed : OrganizationalGenome → List NodeId → Type 0
IsClosed genome ids =
    (a : NodeId)
    → contains ids a ≡ true
    → (node : ViableNode) × Holds genome a node
      × ((c : NodeId) → contains node.children c ≡ true → contains ids c ≡ true)

pub record Collected (genome : OrganizationalGenome) (id : NodeId) (ids : List NodeId)
    : Type 0 where
  pub top : contains ids id ≡ true
  pub closed : IsClosed genome ids
  pub below : (a : NodeId) → contains ids a ≡ true → Below genome id a

record CollectedAll (genome : OrganizationalGenome) (tops ids : List NodeId) : Type 0 where
  tops_in : (c : NodeId) → contains tops c ≡ true → contains ids c ≡ true
  closed : IsClosed genome ids
  below :
      (a : NodeId)
      → contains ids a ≡ true
      → (c : NodeId) × (contains tops c ≡ true) × Below genome c a

mem_append :
    (xs ys : List NodeId) (a : NodeId)
    → contains (xs ++ ys) a ≡ true
    → (contains xs a ≡ true) ⊎ (contains ys a ≡ true)
mem_append xs ys a h = or-cases _ _ (sym (contains-append xs ys a) ∙ h)

mem_left : (xs ys : List NodeId) (a : NodeId) → contains xs a ≡ true → contains (xs ++ ys) a ≡ true
mem_left xs ys a h = contains-append xs ys a ∙ or-left _ _ h

mem_right : (xs ys : List NodeId) (a : NodeId) → contains ys a ≡ true → contains (xs ++ ys) a ≡ true
mem_right xs ys a h = contains-append xs ys a ∙ or-right _ _ h

module _ (genome : OrganizationalGenome) where
  pub IsClosed-append :
      (xs ys : List NodeId) → IsClosed genome xs → IsClosed genome ys → IsClosed genome (xs ++ ys)
  IsClosed-append xs ys p q a h = elim (mem_append xs ys a h) [
    | inl l ↦ let (node, held, into) = p a l in (node, held, λ c i. mem_left xs ys c (into c i))
    | inr r ↦ let (node, held, into) = q a r in (node, held, λ c i. mem_right xs ys c (into c i))
  ]

  CollectedAll-nil : CollectedAll genome [] []
  unfolding contains
  CollectedAll-nil = record { tops_in = λ c h. h; closed = λ a h. cc; below = λ a h. cc }

  CollectedAll-cons :
      (id : NodeId) (tops xs ys : List NodeId)
      → Collected genome id xs
      → CollectedAll genome tops ys
      → CollectedAll genome (id ∷ tops) (xs ++ ys)
  unfolding contains
  CollectedAll-cons id tops xs ys p q = record {
    tops_in = λ c h. elim (or-cases (id == c) (contains tops c) h) [
      | inl e ↦ mem_left xs ys c (subst (λ z. contains xs z ≡ true) (==_eq e) p.top)
      | inr r ↦ mem_right xs ys c (q.tops_in c r)
    ];
    closed = IsClosed-append xs ys p.closed q.closed;
    below = λ a h. elim (mem_append xs ys a h) [
      | inl l ↦ (id, or-left _ _ (==_refl id), p.below a l)
      | inr r ↦ let (c, m, b) = q.below a r in (c, or-right (id == c) _ m, b)
    ];
  }

  Collected-node :
      (id : NodeId) (node : ViableNode) (ids : List NodeId)
      → Holds genome id node
      → CollectedAll genome node.children ids
      → Collected genome id (id ∷ ids)
  unfolding contains
  Collected-node id node ids held all = record {
    top = or-left _ _ (==_refl id);
    closed = λ a h. elim (or-cases (id == a) (contains ids a) h) [
      | inl e ↦ (
        node,
        subst (λ z. Holds genome z node) (==_eq e) held,
        λ c i. or-right (id == c) _ (all.tops_in c i),
      )
      | inr r ↦
          let (n, held', into) = all.closed a r in
          (n, held', λ c i. or-right (id == c) _ (into c i))
    ];
    below = λ a h. elim (or-cases (id == a) (contains ids a) h) [
      | inl e ↦ subst (λ z. Below genome id z) (==_eq e) here
      | inr r ↦ let (c, m, b) = all.below a r in Below-step node held m b
    ];
  }

  abbrev pub Visit : Type 0
  Visit = NodeId → List NodeId → Option (Result GenomeError (List NodeId))

  abbrev pub Visits : Visit → Type 0
  Visits visit =
      (id : NodeId) (out r : List NodeId)
      → visit id out ≡ some (ok r)
      → (ids : List NodeId) × (r ≡ out ++ ids) × Collected genome id ids

  -- What a loop that returns has done with its first child.
  children_first :
      (visit : Visit) (id : NodeId) (tops out r : List NodeId)
      (v : Option (Result GenomeError (List NodeId)))
      → visit id out ≡ v
      → collect_children visit (id ∷ tops) out ≡ some (ok r)
      → (out' : List NodeId) × (visit id out ≡ some (ok out'))
        × (collect_children visit tops out' ≡ some (ok r))
  unfolding collect_children
  children_first visit id tops out r none p e = absurd (ground arith)
  children_first visit id tops out r (some (err x)) p e = absurd (ground arith)
  children_first visit id tops out r (some (ok out')) p e = (out', p, rw (p, collect_children) at e)

  collect_children-CollectedAll :
      (visit : Visit)
      → Visits visit
      → (tops out r : List NodeId) → collect_children visit tops out ≡ some (ok r)
      → (ids : List NodeId) × (r ≡ out ++ ids) × CollectedAll genome tops ids
  collect_children-CollectedAll visit visits [] out r e =
      ([], unfold collect_children in ground (arith, append-nil out), CollectedAll-nil)
  collect_children-CollectedAll visit visits (id ∷ tops) out r e =
      let (out', p, q) = children_first visit id tops out r (visit id out) refl e in
      let (xs, ex, cx) = visits id out out' p in
      let (ys, ey, cy) = collect_children-CollectedAll visit visits tops out' r q in
      (
        xs ++ ys,
        ey ∙ ap (λ z. z ++ ys) ex ∙ append_assoc out xs ys,
        CollectedAll-cons id tops xs ys cx cy,
      )

  -- A collection that returns has read its node.
  subtree_node :
      (fuel : ℕ) (id : NodeId) (out r : List NodeId) (v : Option ViableNode)
      → get id genome.nodes ≡ v
      → collect_subtree (suc fuel) genome id out ≡ some (ok r)
      → (node : ViableNode) × Holds genome id node
        × (collect_children (collect_subtree fuel genome) node.children (out ++ id ∷ [])
            ≡ some (ok r))
  unfolding collect_subtree
  subtree_node fuel id out r none p e = absurd (ground arith)
  subtree_node fuel id out r (some node) p e = (node, p, rw (p, collect_subtree) at e)

  pub collect_subtree-Collected : (fuel : ℕ) → Visits (collect_subtree fuel genome)
  collect_subtree-Collected zero id out r e = unfold collect_subtree in cc
  collect_subtree-Collected (suc fuel) id out r e =
      let (node, held, loop) = subtree_node fuel id out r (get id genome.nodes) refl e in
      let (ids, ex, all) =
        collect_children-CollectedAll (collect_subtree fuel genome) (collect_subtree-Collected fuel)
          node.children (out ++ id ∷ []) r loop in
      (id ∷ ids, ex ∙ append_assoc out (id ∷ []) ids, Collected-node id node ids held all)

  -- A list that holds a node and is closed holds all below the node.
  pub IsClosed-Below :
      (ids : List NodeId) {id a : NodeId}
      → IsClosed genome ids
      → contains ids id ≡ true
      → Below genome id a
      → contains ids a ≡ true
  IsClosed-Below ids closed top here = top
  IsClosed-Below ids closed top (down {b = b} {c = c} below node held is_child) =
      let (n, held', into) = closed b (IsClosed-Below ids closed top below) in into c (ground arith)

-- When `subtree_ids` returns a list, the list holds exactly the node and what lies below it along
-- child pointers.
pub subtree_ids-Below :
    (fuel : ℕ) (genome : OrganizationalGenome) (id : NodeId) (ids : List NodeId)
    → subtree_ids fuel genome id ≡ some (ok ids)
    → (a : NodeId) → (contains ids a ≡ true) ↔ Below genome id a
unfolding subtree_ids
subtree_ids-Below fuel genome id ids e a =
    let (xs, ex, c) = collect_subtree-Collected genome fuel id [] ids e in
    (
      λ h. c.below a (subst (λ z. contains z a ≡ true) ex h),
      λ b. subst (λ z. contains z a ≡ true) (sym ex) (IsClosed-Below genome xs c.closed c.top b),
    )
