-- ===== src/Controller/Evolution/Offspring.antt =====
-- The guardrail against long prompts (crates/vsm-controller/src/evolution.rs, `prompt_parsimony_suggestion`). `F`
-- stands for `f64`, and the sum of `u64` is a number without a bound here.
use Prim.Native.Nat.{◌/◌}
use Prim.Native.String.{◌++◌ as append_text}
use vsm_agent_kernel.Base.{
  ℕ, ◌+◌, String, true, Option, none, some, List, [], ◌∷◌, length, string_key, ltb, if◌then◌else◌,
}
use vsm_agent_kernel.Base.Decimal.{decimal}
use vsm_agent_kernel.Base.TreeMap.{get}
use vsm_agent_kernel.Core.Id.{NodeId, SuggestionId}
use vsm_agent_kernel.Core.Genome.{OrganizationalGenome}
use vsm_agent_kernel.Core.Node.{PromptComponent, mutation}
use vsm_agent_kernel.Core.Patch.{add_prompt_component, behavior_rules}
use vsm_agent_kernel.Core.Suggestion.{GeneSuggestion}
use vsm_agent_kernel.Core.Trace.{TaskTrace, token_total}
use vsm_agent_kernel.Controller.Evolution.{EvolutionPolicy, prompt_has_tag, bounded_suggestion}

-- What an operator ends with: its suggestion and the number of ids drawn; `none` if it does not end.
abbrev pub Draw : Type 0
Draw = Option (Option GeneSuggestion × ℕ)

unfoldable pub sum_tokens : {F : Type 0} → List (TaskTrace F) → ℕ
unfolding token_total
sum_tokens [] = 0
sum_tokens (trace ∷ rest) = token_total trace + sum_tokens rest

-- The division panics without a trace: `none`.
unfoldable pub average_tokens : {F : Type 0} → List (TaskTrace F) → Option ℕ
unfolding sum_tokens
average_tokens [] = none
average_tokens (trace ∷ rest) = some (sum_tokens (trace ∷ rest) / length (trace ∷ rest))

unfoldable pub guardrail : ℕ → PromptComponent
unfolding decimal
guardrail generation = record {
  id = append_text "evolution-parsimony-" (decimal generation);
  text =
      append_text "Prefer the smallest task/context/authority bundle that can satisfy acceptance "
        "criteria; split or retrieve context only when the expected reliability gain exceeds coordination and token cost.";
  tags = "evolution" ∷ "evolution_parsimony_guardrail" ∷ [];
  origin = mutation;
  active = true;
}

module _ {F : Type 0} (uuid : ℕ → String) (controller_node_id : NodeId) (generation : ℕ)
    (champion : OrganizationalGenome) (policy : EvolutionPolicy F) where
  -- Past the guards on the traces.
  unfoldable pub guardrail_at : ℕ → List SuggestionId → ℕ → Option GeneSuggestion × ℕ
  unfolding get prompt_has_tag bounded_suggestion decimal guardrail
  guardrail_at average parent_trial_ids issued = elim (get controller_node_id champion.nodes) [
    | none ↦ (none, issued)
    | some parent ↦
        if prompt_has_tag parent "evolution_parsimony_guardrail"
        then (none, issued)
        else bounded_suggestion uuid controller_node_id generation policy issued
            "add_prompt_parsimony_guardrail"
            (add_prompt_component controller_node_id behavior_rules (guardrail generation))
            "High average token use justifies trialing a parsimony guardrail."
            (append_text "average_tokens=" (decimal average) ∷ []) parent_trial_ids
  ]

  unfoldable pub prompt_parsimony_suggestion : List (TaskTrace F) → List SuggestionId → ℕ → Draw
  unfolding average_tokens guardrail_at
  prompt_parsimony_suggestion recent_traces parent_trial_ids issued =
      if ltb (length recent_traces) policy.min_pressure_traces
      then some (none, issued)
      else elim (average_tokens recent_traces) [
        | none ↦ none
        | some average ↦
            if ltb average policy.high_average_token_threshold
            then some (none, issued)
            else some (guardrail_at average parent_trial_ids issued)
      ]
