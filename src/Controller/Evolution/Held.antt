-- ===== src/Controller/Evolution/Held.antt =====
-- That the operators of crates/vsm-controller/src/evolution.rs name nodes that the champion has.
use vsm_agent_kernel.Base.{
  ℕ, ◌≡◌, sym, subst, inl, inr, Bool, true, Option, none, some, List, [], ◌∷◌, map, contains,
  retain, All, All-retain, Key, ◌==◌, ==_eq, or-cases, Bool-cases, Option-cases, string_key,
  if◌then◌else◌,
}
use vsm_agent_kernel.Base.Entries.{update_entry}
use vsm_agent_kernel.Base.Float.{Float}
use vsm_agent_kernel.Base.TreeMap.{TreeMap, get, insert, modify, is_some}
use vsm_agent_kernel.Core.Id.{NodeId}
use vsm_agent_kernel.Core.Genome.{OrganizationalGenome}
use vsm_agent_kernel.Core.Genome.Tree.{IsTree}
use vsm_agent_kernel.Core.Node.{ViableNode}
use vsm_agent_kernel.Core.Trace.{TaskTrace}
use vsm_agent_kernel.Controller.Router.{is_retired}
use vsm_agent_kernel.Controller.Evolution.Retirement.{
  ChildScore, active_children, child_scores, child_score, worst_from, worst_of,
}

-- What there is has the property.
abbrev pub Each {ℓ κ} : {A : Type ℓ} → (A → Type κ) → Option A → Type κ
Each P none = Unit
Each P (some a) = P a

-- The keys of a map have the property.
abbrev AllKeys {ℓ κ μ} : {K : Type ℓ} {V : Type κ} → (K → Type μ) → TreeMap K V → Type μ
AllKeys Q m = All (λ e. Q e.0) m

module _ {ℓ κ μ} {K : Type ℓ} {V : Type κ} ⦃o : Key K⦄ (Q : K → Type μ) where
  insert-AllKeys : (k : K) (v : V) (m : TreeMap K V) → Q k → AllKeys Q m → AllKeys Q (insert k v m)
  unfolding insert
  insert-AllKeys k v [] q h = (q, tt)
  insert-AllKeys k v ((j, w) ∷ m) q h = elim (Bool-cases (j == k)) [
    | inl e ↦ rw e (q, h.1)
    | inr e ↦ elim (Bool-cases (o.before k j)) [
      | inl b ↦ rw (e, b) (q, h)
      | inr b ↦ rw (e, b) (h.0, insert-AllKeys k v m q h.1)
    ]
  ]

  modify-AllKeys : (k : K) (g : V → V) (m : TreeMap K V) → AllKeys Q m → AllKeys Q (modify k g m)
  unfolding modify
  modify-AllKeys k g [] h = tt
  modify-AllKeys k g ((j, w) ∷ m) h = elim (Bool-cases (j == k)) [
    | inl e ↦ rw e h
    | inr e ↦ rw e (h.0, modify-AllKeys k g m h.1)
  ]

  update_entry-AllKeys :
      (k : K) (v : V) (g : V → V) (m : TreeMap K V)
      → Q k
      → AllKeys Q m
      → AllKeys Q (update_entry k v g m)
  unfolding update_entry
  update_entry-AllKeys k v g m q h = elim (Bool-cases (is_some (get k m))) [
    | inl e ↦ rw e (modify-AllKeys k g m h)
    | inr e ↦ rw e (modify-AllKeys k g (insert k v m) (insert-AllKeys k v m q h))
  ]

module _ (champion : OrganizationalGenome) where
  abbrev pub Held : NodeId → Type 0
  Held id = (node : ViableNode) × (get id champion.nodes ≡ some node)

  active_children-Held :
      (tree : IsTree champion) (ids : List NodeId)
      → All (λ child. Held child.id) (active_children champion ids)
  unfolding active_children
  active_children-Held tree [] = tt
  active_children-Held tree (id ∷ ids) = elim (Option-cases (get id champion.nodes)) [
    | inl e ↦ rw (active_children, e) (active_children-Held tree ids)
    | inr (child, e) ↦ elim (Bool-cases (is_retired child.status)) [
      | inl r ↦ rw (active_children, e, r) (active_children-Held tree ids)
      | inr r ↦
          rw (active_children, e, r)
            (
              (
                child,
                subst (λ i. get i champion.nodes ≡ some child) (sym (tree.keyed id child e)) e,
              ),
              active_children-Held tree ids,
            )
    ]
  ]

  contains-Held :
      (children : List ViableNode) (id : NodeId)
      → All (λ child. Held child.id) children
      → contains (map (λ child. child.id) children) id ≡ true
      → Held id
  unfolding contains
  contains-Held [] id h c = absurd (cc)
  contains-Held (child ∷ rest) id h c = elim (or-cases (child.id == id) _ c) [
    | inl e ↦ subst Held (==_eq e) h.0
    | inr e ↦ contains-Held rest id h.1 e
  ]

  module _ {F : Type 0} ⦃f : Float F⦄ where
    child_scores-Held :
        (children : List ViableNode) (traces : List (TaskTrace F)) (scores : TreeMap NodeId (ℕ × F))
        → All (λ child. Held child.id) children
        → AllKeys Held scores
        → AllKeys Held (child_scores (map (λ child. child.id) children) traces scores)
    unfolding child_scores
    child_scores-Held children [] scores h k = k
    child_scores-Held children (trace ∷ traces) scores h k =
        elim (Bool-cases (contains (map (λ child. child.id) children) trace.assigned_node_id)) [
          | inl e ↦ rw e (
              child_scores-Held children traces _ h (
                update_entry-AllKeys Held trace.assigned_node_id _ _ scores
                  (contains-Held children trace.assigned_node_id h e) k))
          | inr e ↦ rw e (child_scores-Held children traces scores h k)
        ]

    map-child_score-Held :
        (scores : TreeMap NodeId (ℕ × F))
        → AllKeys Held scores
        → All (λ c. Held c.child_id) (map child_score scores)
    map-child_score-Held [] k = tt
    map-child_score-Held (e ∷ es) k = (k.0, map-child_score-Held es k.1)

    worst_from-Held :
        (worst : ChildScore F) (cs : List (ChildScore F))
        → Held worst.child_id
        → All (λ c. Held c.child_id) cs
        → Held (worst_from worst cs).child_id
    unfolding worst_from
    worst_from-Held worst [] h k = h
    worst_from-Held worst (c ∷ cs) h k =
        let next : Held (if f.less c.average worst.average then c else worst).child_id =
          elim (Bool-cases (f.less c.average worst.average)) [
            | inl e ↦ rw e k.0
            | inr e ↦ rw e h
          ] in
        worst_from-Held (if f.less c.average worst.average then c else worst) cs next k.1

    worst_of-Held :
        (cs : List (ChildScore F))
        → All (λ c. Held c.child_id) cs
        → Each (λ c. Held c.child_id) (worst_of cs)
    unfolding worst_of
    worst_of-Held [] k = tt
    worst_of-Held (c ∷ cs) k = worst_from-Held c cs k.0 k.1

    -- The child that is to be retired.
    pub worst-Held :
        (tree : IsTree champion) (ids : List NodeId) (traces : List (TaskTrace F))
        (tried : NodeId × (ℕ × F) → Bool)
        → Each
            (λ c. Held c.child_id)
            (worst_of (
              map child_score (
                retain tried (
                  child_scores
                    (map (λ child. child.id) (active_children champion ids))
                    traces
                    []))))
    worst-Held tree ids traces tried = worst_of-Held _ (
        map-child_score-Held _ (
          All-retain tried (λ e passed k. k) _
            (child_scores-Held (active_children champion ids) traces []
              (active_children-Held tree ids) tt)))
