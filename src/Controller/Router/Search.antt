-- ===== src/Controller/Router/Search.antt =====
-- The search of `choose_direct_child` (crates/vsm-controller/src/router.rs) for the first eligible child.
use vsm_agent_kernel.Base.{
  String, ◌≡◌, ◌⊎◌, refl, sym, ap, ◌∙◌, inl, inr, true, false, Option, none, List, [], ◌∷◌,
  contains, is_empty, string_key, arith, Bool-cases, Option-cases, or-cases, or-left, or-right,
  ==_refl, ==_eq, ◌==◌, subst,
}
use mathlib.Core.Option.{some-injective}
use vsm_agent_kernel.Base.Results.{Result, ok, err}
use vsm_agent_kernel.Base.TreeMap.{get}
use vsm_agent_kernel.Core.Id.{NodeId}
use vsm_agent_kernel.Core.Node.{ViableNode, is_metasystem}
use vsm_agent_kernel.Core.Genome.{OrganizationalGenome, node_not_found, get_node}
use vsm_agent_kernel.Core.Genome.Tree.{Holds}
use vsm_agent_kernel.Core.Task.{TaskPacket}
use vsm_agent_kernel.Controller.Error.{ControllerError, genome, no_routeable_child}
use vsm_agent_kernel.Controller.Router.{
  RoutingDecision, assigned_child, eligible_loop, by_target, choose_direct_child,
}
use vsm_agent_kernel.Controller.Router.Gate.{Accepts, eligible, eligible_iff}

-- The decision names a node of the genome that is listed in `tops`, with the property `P`.
abbrev pub Names :
    OrganizationalGenome → List NodeId → (ViableNode → Type 0) → RoutingDecision → Type 0
Names g tops P d =
    (id : NodeId) × (child : ViableNode) × (contains tops id ≡ true)
    × Holds g id child
    × (d.child_id ≡ child.id)
    × P child

nobody : (parent : ViableNode) (o : Option NodeId) → o ≡ none → assigned_child parent o ≡ none
nobody parent o e =
    subst (λ z. assigned_child parent z ≡ none) (sym e) (unfold assigned_child in refl)

module _ (g : OrganizationalGenome) (parent : ViableNode) (task : TaskPacket) where
  module _ (id : NodeId) (rest : List NodeId) where
    loop_missing :
        get id g.nodes ≡ none
        → eligible_loop g parent task (id ∷ rest) ≡ err (genome (node_not_found id))
    unfolding eligible_loop get_node
    loop_missing e = rw (e, get_node, eligible_loop) refl

    loop_skips :
        (child : ViableNode)
        → Holds g id child
        → eligible task child ≡ false
        → eligible_loop g parent task (id ∷ rest) ≡ eligible_loop g parent task rest
    unfolding eligible_loop eligible get_node
    loop_skips child e h = ground arith

    loop_takes :
        (child : ViableNode)
        → Holds g id child
        → eligible task child ≡ true
        → (reason : String) × (eligible_loop g parent task (id ∷ rest)
            ≡ ok (record { child_id = child.id; reason = reason }))
    unfolding eligible_loop eligible get_node
    loop_takes child e h = elim (Bool-cases (is_metasystem child)) [
      | inl meta ↦ ("direct child is a metasystem capable of further delegation", ground arith)
      | inr leaf ↦ ("first direct leaf child with required capabilities", ground arith)
    ]

  -- What the search over the children returns.
  abbrev pub Searched : List NodeId → Result ControllerError RoutingDecision → Type 0
  Searched tops r =
      ((d : RoutingDecision) × (r ≡ ok d) × Names g tops (λ child. Accepts child task) d)
      ⊎ ((id : NodeId) × (contains tops id ≡ true)
          × (get id g.nodes ≡ none)
          × (r ≡ err (genome (node_not_found id))))
      ⊎ ((r ≡ err (no_routeable_child parent.id task.title))
          × ((id : NodeId) (child : ViableNode)
              → contains tops id ≡ true
              → Holds g id child
              → ¬ Accepts child task))

  search_skips :
      (id : NodeId) (rest : List NodeId) (child : ViableNode)
      → Holds g id child
      → eligible task child ≡ false
      → Searched rest (eligible_loop g parent task rest)
      → Searched (id ∷ rest) (eligible_loop g parent task rest)
  unfolding contains
  search_skips id rest child held refused (inl (d, e, (j, c, m, h, i, a))) =
      inl (d, e, (j, c, or-right (id == j) _ m, h, i, a))
  search_skips id rest child held refused (inr (inl (j, m, missing, e))) =
      inr (inl (j, or-right (id == j) _ m, missing, e))
  search_skips id rest child held refused (inr (inr (e, none_fits))) = inr (
      inr (
        e,
        λ j c m h a. elim (or-cases (id == j) (contains rest j) m) [
          | inl same ↦
              let same_child : child ≡ c =
                some-injective _ _ (sym held ∙ ap (λ z. get z g.nodes) (==_eq same) ∙ h) in
              let fits : eligible task child ≡ true =
                subst (λ z. eligible task z ≡ true) (sym same_child) ((eligible_iff task c).1 a) in
              ground (arith, fits, refused)
          | inr later ↦ none_fits j c later h a
        ],
      ))

  pub search : (tops : List NodeId) → Searched tops (eligible_loop g parent task tops)
  unfolding contains
  search [] = inr (inr (unfold eligible_loop in refl, λ id child m held a. ground arith))
  search (id ∷ rest) = elim (Option-cases (get id g.nodes)) [
    | inl missing ↦
        inr (
          inl
            (id, or-left _ (contains rest id) (==_refl id), missing, loop_missing id rest missing))
    | inr (child, held) ↦ elim (Bool-cases (eligible task child)) [
      | inl fits ↦
          let (reason, e) = loop_takes id rest child held fits in
          inl (
            record { child_id = child.id; reason = reason },
            e,
            (
              id,
              child,
              or-left _ (contains rest id) (==_refl id),
              held,
              refl,
              (eligible_iff task child).0 fits,
            ),
          )
      | inr refused ↦
          rw (loop_skips id rest child held refused)
            (search_skips id rest child held refused (search rest))
    ]
  ]

  -- Without an assignment and without a target the choice is the search.
  pub unassigned :
      is_empty parent.children ≡ false
      → task.assigned_to ≡ none
      → get "target_child" task.metadata ≡ none
      → choose_direct_child g parent task ≡ eligible_loop g parent task parent.children
  unfolding choose_direct_child assigned_child by_target
  unassigned nonempty free untargeted =
      rw nonempty (rw (nobody parent task.assigned_to free) (rw (untargeted, by_target) refl))
