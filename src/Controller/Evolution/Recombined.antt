-- ===== src/Controller/Evolution/Recombined.antt =====
-- What the recombination of crates/vsm-controller/src/evolution.rs suggests, and that it returns.
use Prim.Native.String.{◌++◌ as append_text}
use vsm_agent_kernel.Base.{
  ℕ, ◌+◌, ◌≤◌, ◌<◌, String, ◌≡◌, refl, subst, inl, inr, Bool, true, false, none, some, List, [],
  ◌∷◌, All, string_key, arith, Bool-cases, Option-cases,
}
use vsm_agent_kernel.Base.Results.{Result-cases}
use vsm_agent_kernel.Core.Id.{NodeId}
use vsm_agent_kernel.Core.Genome.{OrganizationalGenome, World}
use vsm_agent_kernel.Core.Genome.Tree.{IsTree}
use vsm_agent_kernel.Core.Patch.{OrganizationalGenomePatch}
use vsm_agent_kernel.Core.Patch.Shape.{childless, growth, apply-IsTree}
use vsm_agent_kernel.Ledger.Trial.{StoredTrialRecord}
use vsm_agent_kernel.Controller.Evolution.{
  EvolutionPolicy, ParentCandidate, applied_ok, patch_applies,
}
use vsm_agent_kernel.Controller.Evolution.Recombination.{
  both_patches, recombine, recombine_with, recombination_suggestion,
}
use vsm_agent_kernel.Controller.Evolution.Bounded.{
  Applies, Good, Returns, bounded_suggestion-IsBounded,
}

-- A patch that brings nodes without children and makes the tree at most `g` levels higher.
abbrev pub Modest : ℕ → OrganizationalGenomePatch → Type 0
Modest g patch = (childless patch ≡ true) × (growth patch ≤ g)

module _ {F : Type 0} (uuid : ℕ → String) (fuel : ℕ) (controller_node_id : NodeId) (generation : ℕ)
    (champion : OrganizationalGenome) (policy : EvolutionPolicy F) where
  -- The patches of two modest parents are tried to the end.
  patch_applies-Returns :
      (issued g : ℕ) (tree : IsTree champion) (left right : StoredTrialRecord F)
      → tree.height + g + g < fuel
      → Modest g left.suggestion.patch
      → Modest g right.suggestion.patch
      → (applies : Bool) × (drawn : ℕ) × (patch_applies uuid fuel champion issued
            (both_patches left right)
          ≡ some (applies, drawn))
  unfolding patch_applies applied_ok childless growth
  patch_applies-Returns issued g tree left right enough l r =
      let w : World = record { genome = champion; issued = issued } in
      let (result, after, e, tree_after, height_after) =
        apply-IsTree (both_patches left right) uuid fuel w tree (rw (l.0, r.0) refl)
          (omega (arith, l.1, r.1)) in
      elim (Result-cases result) [
        | inl (error, c) ↦ (false, after.issued, rw (e, c) refl)
        | inr (done, c) ↦ (true, after.issued, rw (e, c) refl)
      ]

  recombine-IsBounded :
      (left right : StoredTrialRecord F) (issued : ℕ)
      → Applies uuid fuel champion (both_patches left right)
      → Good uuid fuel controller_node_id generation champion policy
          (recombine uuid fuel controller_node_id generation champion policy left right issued).0
  unfolding recombine
  recombine-IsBounded left right issued applies =
      bounded_suggestion-IsBounded uuid fuel controller_node_id generation champion policy issued
        "recombine_elite_parent_patches" (both_patches left right) _
        (append_text "left_parent=" left.trial_id ∷ append_text "right_parent=" right.trial_id ∷ [])
        (left.trial_id ∷ right.trial_id ∷ []) applies

  module _ (g : ℕ) (tree : IsTree champion) (enough : tree.height + g + g < fuel) where
    abbrev pub ModestParent : ParentCandidate F → Type 0
    ModestParent parent = Modest g parent.stored.suggestion.patch

    recombine_with-Returns :
        (left : ParentCandidate F) (rest : List (ParentCandidate F)) (issued : ℕ)
        → ModestParent left
        → All ModestParent rest
        → Returns uuid fuel controller_node_id generation champion policy (
            recombine_with uuid fuel controller_node_id generation champion policy left rest issued)
    unfolding recombine_with
    recombine_with-Returns left [] issued l h = (none, issued, refl, tt)
    recombine_with-Returns left (right ∷ rest) issued l h =
        let (applies, drawn, e) =
          patch_applies-Returns issued g tree left.stored right.stored enough l h.0 in
        elim (Bool-cases applies) [
          | inl t ↦ (
            (recombine uuid fuel controller_node_id generation champion policy left.stored
                right.stored drawn).0,
            (recombine uuid fuel controller_node_id generation champion policy left.stored
                right.stored drawn).1,
            rw (e, t) refl,
            recombine-IsBounded left.stored right.stored drawn (issued, drawn, rw (e, t) refl),
          )
          | inr t ↦ rw (e, t) (recombine_with-Returns left rest drawn l h.1)
        ]

    pub recombination_suggestion-Returns :
        (parents : List (ParentCandidate F)) (issued : ℕ)
        → All ModestParent parents
        → Returns uuid fuel controller_node_id generation champion policy (
            recombination_suggestion uuid fuel controller_node_id generation champion policy parents
              issued)
    unfolding recombination_suggestion
    recombination_suggestion-Returns [] issued h = (none, issued, refl, tt)
    recombination_suggestion-Returns (left ∷ rest) issued h =
        let (s, drawn, e, good) = recombine_with-Returns left rest issued h.0 h.1 in
        elim (Option-cases s) [
          | inl n ↦
              rw (recombination_suggestion, e, n) (recombination_suggestion-Returns rest drawn h.1)
          | inr (made, n) ↦ (
            some made,
            drawn,
            rw (recombination_suggestion, e, n) refl,
            subst (Good uuid fuel controller_node_id generation champion policy) n good,
          )
        ]
