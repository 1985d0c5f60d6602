-- ===== src/Controller/Evolution/Recombination.antt =====
-- The recombination of two parents (crates/vsm-controller/src/evolution.rs, `recombination_suggestion`). `F`
-- stands for `f64`.
use Prim.Native.String.{◌++◌ as append_text}
use vsm_agent_kernel.Base.{ℕ, String, true, false, Option, none, some, List, [], ◌∷◌, string_key}
use vsm_agent_kernel.Core.Id.{NodeId}
use vsm_agent_kernel.Core.Genome.{OrganizationalGenome}
use vsm_agent_kernel.Core.Patch.{OrganizationalGenomePatch, batch, nil, cons}
use vsm_agent_kernel.Core.Suggestion.{GeneSuggestion}
use vsm_agent_kernel.Ledger.Trial.{StoredTrialRecord}
use vsm_agent_kernel.Controller.Evolution.Offspring.{Draw}
use vsm_agent_kernel.Controller.Evolution.{
  EvolutionPolicy, ParentCandidate, patch_applies, bounded_suggestion,
}

abbrev pub both_patches :
    {F : Type 0} → StoredTrialRecord F → StoredTrialRecord F → OrganizationalGenomePatch
both_patches left right = batch (cons left.suggestion.patch (cons right.suggestion.patch nil))

module _ {F : Type 0} (uuid : ℕ → String) (fuel : ℕ) (controller_node_id : NodeId) (generation : ℕ)
    (champion : OrganizationalGenome) (policy : EvolutionPolicy F) where
  unfoldable pub recombine :
      StoredTrialRecord F → StoredTrialRecord F → ℕ → Option GeneSuggestion × ℕ
  unfolding bounded_suggestion
  recombine left right issued =
      bounded_suggestion uuid controller_node_id generation policy issued
        "recombine_elite_parent_patches" (both_patches left right)
        "Compatible elite parent patches can be trialed together as a recombined offspring."
        (append_text "left_parent=" left.trial_id ∷ append_text "right_parent=" right.trial_id ∷ [])
        (left.trial_id ∷ right.trial_id ∷ [])

  -- The inner loop, over the parents behind `left`.
  unfoldable pub recombine_with : ParentCandidate F → List (ParentCandidate F) → ℕ → Draw
  unfolding patch_applies recombine
  recombine_with left [] issued = some (none, issued)
  recombine_with left (right ∷ rest) issued =
      elim (patch_applies uuid fuel champion issued (both_patches left.stored right.stored)) [
        | none ↦ none
        | some (true, drawn) ↦ some (recombine left.stored right.stored drawn)
        | some (false, drawn) ↦ recombine_with left rest drawn
      ]

  unfoldable pub recombination_suggestion : List (ParentCandidate F) → ℕ → Draw
  unfolding recombine_with
  recombination_suggestion [] issued = some (none, issued)
  recombination_suggestion (left ∷ rest) issued = elim (recombine_with left rest issued) [
    | none ↦ none
    | some (some suggestion, drawn) ↦ some (some suggestion, drawn)
    | some (none, drawn) ↦ recombination_suggestion rest drawn
  ]
