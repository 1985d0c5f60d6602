-- ===== src/Controller/Router/Choice.antt =====
-- What `choose_direct_child` (crates/vsm-controller/src/router.rs) chooses, and when it finds nothing.
use vsm_agent_kernel.Base.{
  String, ◌≡◌, ◌⊎◌, refl, sym, ap, ◌∙◌, inl, inr, true, false, ◌||◌, Option, none, some, List, [],
  ◌∷◌, any, contains, is_empty, string_key, arith, Bool-cases, Option-cases, or-left, or-right,
  ==_refl, ◌==◌, subst,
}
use Prim.Native.String.{◌++◌ as append_text}
use vsm_agent_kernel.Base.Results.{Result, ok, err}
use vsm_agent_kernel.Base.TreeMap.{get}
use vsm_agent_kernel.Core.Id.{NodeId}
use vsm_agent_kernel.Core.Node.{ViableNode}
use vsm_agent_kernel.Core.Genome.{OrganizationalGenome, node_not_found, get_node}
use vsm_agent_kernel.Core.Genome.Tree.{Holds, IsTree}
use vsm_agent_kernel.Core.Task.{TaskPacket}
use vsm_agent_kernel.Controller.Error.{ControllerError, genome, no_routeable_child}
use vsm_agent_kernel.Controller.Router.{
  RoutingDecision, assigned_child, target_loop, eligible_loop, by_target, choose_direct_child,
}
use vsm_agent_kernel.Controller.Router.Gate.{Accepts}
use vsm_agent_kernel.Controller.Router.Search.{Names, search, unassigned}

any-contains : (xs : List NodeId) (a : NodeId) → any (λ x. x == a) xs ≡ contains xs a
unfolding any contains
any-contains [] a = refl
any-contains (x ∷ xs) a = ap ((◌||◌) (x == a)) (any-contains xs a)

module _ (g : OrganizationalGenome) (parent : ViableNode) (task : TaskPacket) where
  module _ (target : String) (id : NodeId) (rest : List NodeId) where
    target_missing :
        get id g.nodes ≡ none → target_loop g target (id ∷ rest) ≡ err (genome (node_not_found id))
    unfolding target_loop get_node
    target_missing e = rw (e, get_node, target_loop) refl

    target_hit :
        (child : ViableNode)
        → Holds g id child
        → (child.id == target || child.name == target) ≡ true
        → (reason : String) × (target_loop g target (id ∷ rest)
            ≡ ok (some (record { child_id = child.id; reason = reason })))
    unfolding target_loop get_node
    target_hit child e h = (append_text "matched target_child metadata: " target, ground arith)

    target_skip :
        (child : ViableNode)
        → Holds g id child
        → (child.id == target || child.name == target) ≡ false
        → target_loop g target (id ∷ rest) ≡ target_loop g target rest
    unfolding target_loop get_node
    target_skip child e h = ground arith

  Names-later :
      (id : NodeId) (rest : List NodeId) (d : RoutingDecision)
      → Names g rest (λ _. Unit {0}) d
      → Names g (id ∷ rest) (λ _. Unit {0}) d
  unfolding contains
  Names-later id rest d (j, c, m, h, i, u) = (j, c, or-right (id == j) _ m, h, i, u)

  -- Every decision of the loop over the targets names a listed node.
  target_loop-Names :
      (target : String) (tops : List NodeId) (d : RoutingDecision)
      → target_loop g target tops ≡ ok (some d)
      → Names g tops (λ _. Unit {0}) d
  unfolding contains
  target_loop-Names target [] d h = absurd (unfold target_loop in ground arith)
  target_loop-Names target (id ∷ rest) d h = elim (Option-cases (get id g.nodes)) [
    | inl missing ↦ absurd (ground (arith, target_missing target id rest missing))
    | inr (child, held) ↦ elim (Bool-cases (child.id == target || child.name == target)) [
      | inl hit ↦
          let (reason, e) = target_hit target id rest child held hit in
          (
            id,
            child,
            or-left _ (contains rest id) (==_refl id),
            held,
            ground (arith, sym h ∙ e),
            tt,
          )
      | inr miss ↦
          Names-later id rest d
            (target_loop-Names target rest d (sym (target_skip target id rest child held miss) ∙ h))
    ]
  ]

  search-Names :
      (d : RoutingDecision)
      → eligible_loop g parent task parent.children ≡ ok d
      → Names g parent.children (λ _. Unit {0}) d
  search-Names d h = elim (search g parent task parent.children) [
    | inl (d', e, (j, c, m, held, i, _)) ↦ (j, c, m, held, ground (arith, sym h ∙ e), tt)
    | inr (inl (_, _, _, e)) ↦ absurd (ground (arith, sym h ∙ e))
    | inr (inr (e, _)) ↦ absurd (ground (arith, sym h ∙ e))
  ]

  after_targets :
      (d : RoutingDecision) (target : String) (r : Result ControllerError (Option RoutingDecision))
      → target_loop g target parent.children ≡ r
      → by_target g parent task (some target) ≡ ok d
      → Names g parent.children (λ _. Unit {0}) d
  after_targets d target (ok (some found)) e h =
      target_loop-Names target parent.children d
        (e ∙ ap (λ (z : RoutingDecision). ok (some z)) (unfold by_target in ground arith))
  after_targets d target (ok none) e h = search-Names d (unfold by_target in rw (e, by_target) at h)
  after_targets d target (err x) e h = absurd (unfold by_target in ground arith)

  by_target-Names :
      (o : Option String) (d : RoutingDecision)
      → by_target g parent task o ≡ ok d
      → Names g parent.children (λ _. Unit {0}) d
  by_target-Names none d h = search-Names d (unfold by_target in h)
  by_target-Names (some target) d h =
      after_targets d target (target_loop g target parent.children) refl h

  assigned_in_children :
      (o : Option NodeId) (d : RoutingDecision)
      → assigned_child parent o ≡ some d
      → contains parent.children d.child_id ≡ true
  unfolding assigned_child
  assigned_in_children none d h = absurd (ground arith)
  assigned_in_children (some a) d h = ground (arith, any-contains parent.children a)

  choice_source :
      (d : RoutingDecision) (o : Option RoutingDecision)
      → assigned_child parent task.assigned_to ≡ o
      → choose_direct_child g parent task ≡ ok d
      → (contains parent.children d.child_id ≡ true)
        ⊎ (by_target g parent task (get "target_child" task.metadata) ≡ ok d)
  choice_source d (some found) e h =
      inl (assigned_in_children task.assigned_to d (unfold choose_direct_child in ground arith))
  choice_source d none e h = inr (unfold choose_direct_child in ground arith)

-- In a tree, for a task that names no assignee and no target, a metasystem's choice is either an `ok`
-- or the error that no child can be routed to. In the first case the child is a direct one, is not
-- retired, and delegates further or passes the worker's own gate for this task. In the second case none
-- of the direct children is so.
pub choose_direct_child_search :
    (g : OrganizationalGenome) (id : NodeId) (parent : ViableNode) (task : TaskPacket)
    → IsTree g
    → Holds g id parent
    → is_empty parent.children ≡ false
    → task.assigned_to ≡ none
    → get "target_child" task.metadata ≡ none
    → ((d : RoutingDecision) × (choose_direct_child g parent task ≡ ok d)
        × ((child_id : NodeId) × (child : ViableNode) × (contains parent.children child_id ≡ true)
            × Holds g child_id child
            × (d.child_id ≡ child.id)
            × Accepts child task))
      ⊎ ((choose_direct_child g parent task ≡ err (no_routeable_child parent.id task.title))
          × ((child_id : NodeId) (child : ViableNode)
              → contains parent.children child_id ≡ true
              → Holds g child_id child
              → ¬ Accepts child task))
choose_direct_child_search g id parent task tree held nonempty free untargeted =
    rw (unassigned g parent task nonempty free untargeted)
      (elim (search g parent task parent.children) [
        | inl found ↦ inl found
        | inr (inl (c, m, missing, _)) ↦
            let (child, there, _) = tree.child_held id c parent held m in absurd (ground arith)
        | inr (inr nothing) ↦ inr nothing
      ])

-- In a tree, whatever the task assigns, names as its target or requires, a child that is chosen is a
-- direct child of the node that routes.
pub choose_direct_child-direct :
    (g : OrganizationalGenome) (parent : ViableNode) (task : TaskPacket) (d : RoutingDecision)
    → IsTree g
    → choose_direct_child g parent task ≡ ok d
    → contains parent.children d.child_id ≡ true
choose_direct_child-direct g parent task d tree h =
    elim (choice_source g parent task d (assigned_child parent task.assigned_to) refl h) [
      | inl direct ↦ direct
      | inr targeted ↦
          let (id, child, m, held, i, _) =
            by_target-Names g parent task (get "target_child" task.metadata) d targeted in
          subst (λ z. contains parent.children z ≡ true) (sym (i ∙ tree.keyed id child held)) m
    ]
