-- ===== src/Controller/Evolution/Bounded.antt =====
-- What the operators of crates/vsm-controller/src/evolution.rs suggest, and that they return.
use Prim.Native.Nat.{◌/◌}
use Prim.Native.String.{◌++◌ as append_text}
use vsm_agent_kernel.Base.Decimal.{decimal}
use vsm_agent_kernel.Base.{
  ℕ, ◌<◌, String, ◌≡◌, refl, inl, inr, true, Option, none, some, List, [], ◌∷◌, length, ltb, leb,
  string_key, arith, Bool-cases, Option-cases,
}
use vsm_agent_kernel.Base.Float.{Float}
use vsm_agent_kernel.Base.TreeMap.{get}
use vsm_agent_kernel.Core.Id.{NodeId, SuggestionId}
use vsm_agent_kernel.Core.Genome.{OrganizationalGenome, World}
use vsm_agent_kernel.Core.Genome.Tree.{IsTree}
use vsm_agent_kernel.Core.Node.{PromptComponent, retired}
use vsm_agent_kernel.Core.Patch.{
  OrganizationalGenomePatch, PromptSection, add_prompt_component, set_node_status,
}
use vsm_agent_kernel.Core.Patch.Writes.{apply-add_prompt_component, apply-set_node_status}
use vsm_agent_kernel.Core.Suggestion.{GeneSuggestion, canary}
use vsm_agent_kernel.Core.Trace.{TaskTrace}
use vsm_agent_kernel.Controller.Evolution.{
  EvolutionPolicy, prompt_has_tag, applied_ok, patch_applies, bounded_suggestion,
}
use vsm_agent_kernel.Controller.Evolution.Offspring.{
  Draw, sum_tokens, average_tokens, guardrail_at, prompt_parsimony_suggestion,
}
use vsm_agent_kernel.Controller.Evolution.Retirement.{
  ChildScore, active_children, retire_child, retirement_suggestion,
}
use vsm_agent_kernel.Controller.Evolution.Held.{Each, Held, worst-Held}

-- A copy of the champion takes the patch without an error.
abbrev pub Applies : (ℕ → String) → ℕ → OrganizationalGenome → OrganizationalGenomePatch → Type 0
Applies uuid fuel champion patch =
    (issued : ℕ) × (drawn : ℕ) × (patch_applies uuid fuel champion issued patch
      ≡ some (true, drawn))

-- A suggestion of the controller for itself, which applies to the champion, on trial as a canary within the
-- limits of the policy.
pub record IsBounded {F : Type 0} (uuid : ℕ → String) (fuel : ℕ) (champion : OrganizationalGenome)
    (controller_node_id : NodeId) (policy : EvolutionPolicy F) (s : GeneSuggestion) : Type 0 where
  pub by_controller : s.suggested_by_node_id ≡ controller_node_id
  pub for_controller : s.target_node_id ≡ controller_node_id
  pub applies : Applies uuid fuel champion s.patch
  pub mode : s.trial_mode ≡ canary
  pub tasks : s.safety_limits.max_tasks ≡ some policy.probation_max_tasks
  pub tokens : s.safety_limits.max_token_budget ≡ some policy.probation_token_budget
  pub share :
      s.safety_limits.max_traffic_share_basis_points ≡ some policy.canary_traffic_share_basis_points

-- A write to a node that the champion has.
module _ (uuid : ℕ → String) (fuel issued : ℕ) (champion : OrganizationalGenome) (id : NodeId)
    (held : Held champion id) where
  abbrev copy : World
  copy = record { genome = champion; issued = issued }

  guardrail-Applies :
      (section : PromptSection) (component : PromptComponent)
      → Applies uuid fuel champion (add_prompt_component id section component)
  unfolding patch_applies applied_ok
  guardrail-Applies section component =
      let (after, e) =
        apply-add_prompt_component uuid fuel copy id held.0 held.1 section component in
      (issued, after.issued, rw e refl)

  retirement-Applies : Applies uuid fuel champion (set_node_status id retired)
  unfolding patch_applies applied_ok
  retirement-Applies =
      let (after, e) = apply-set_node_status uuid fuel copy id held.0 held.1 retired in
      (issued, after.issued, rw e refl)

module _ {F : Type 0} (uuid : ℕ → String) (fuel : ℕ) (controller_node_id : NodeId) (generation : ℕ)
    (champion : OrganizationalGenome) (policy : EvolutionPolicy F) where
  abbrev pub Good : Option GeneSuggestion → Type 0
  Good = Each (IsBounded uuid fuel champion controller_node_id policy)

  pub bounded_suggestion-IsBounded :
      (issued : ℕ) (operator : String) (patch : OrganizationalGenomePatch) (hypothesis : String)
      (evidence : List String) (parent_trial_ids : List SuggestionId)
      → Applies uuid fuel champion patch
      → Good
          (bounded_suggestion uuid controller_node_id generation policy issued operator patch
            hypothesis evidence parent_trial_ids).0
  unfolding bounded_suggestion
  bounded_suggestion-IsBounded issued operator patch hypothesis evidence parent_trial_ids applies =
      record {
        by_controller = refl;
        for_controller = refl;
        applies = applies;
        mode = refl;
        tasks = refl;
        tokens = refl;
        share = refl;
      }

  guardrail_at-IsBounded :
      (average : ℕ) (parent_trial_ids : List SuggestionId) (issued : ℕ)
      → Good
          (guardrail_at uuid controller_node_id generation champion policy average parent_trial_ids
            issued).0
  unfolding guardrail_at
  guardrail_at-IsBounded average parent_trial_ids issued =
      elim (Option-cases (get controller_node_id champion.nodes)) [
        | inl e ↦ rw (guardrail_at, e) tt
        | inr (parent, e) ↦
            elim (Bool-cases (prompt_has_tag parent "evolution_parsimony_guardrail")) [
              | inl t ↦ rw (guardrail_at, e, t) tt
              | inr t ↦
                  rw (guardrail_at, e, t)
                    (bounded_suggestion-IsBounded issued "add_prompt_parsimony_guardrail" _ _
                      (append_text "average_tokens=" (decimal average) ∷ []) parent_trial_ids
                      (guardrail-Applies uuid fuel issued champion controller_node_id (parent, e) _
                        _))
            ]
      ]

  -- An operator returns, with a suggestion that is bounded or none.
  abbrev pub Returns : Draw → Type 0
  Returns draw = (s : Option GeneSuggestion) × (drawn : ℕ) × (draw ≡ some (s, drawn)) × Good s

  pub prompt_parsimony_suggestion-Returns :
      (recent_traces : List (TaskTrace F)) (parent_trial_ids : List SuggestionId) (issued : ℕ)
      → 0 < policy.min_pressure_traces
      → Returns (
          prompt_parsimony_suggestion uuid controller_node_id generation champion policy
            recent_traces parent_trial_ids issued)
  unfolding prompt_parsimony_suggestion average_tokens
  prompt_parsimony_suggestion-Returns [] parent_trial_ids issued h =
      (none, issued, ground arith, tt)
  prompt_parsimony_suggestion-Returns (t ∷ ts) parent_trial_ids issued h =
      let few = ltb (length (t ∷ ts)) policy.min_pressure_traces in
      let average = sum_tokens (t ∷ ts) / length (t ∷ ts) in
      elim (Bool-cases few) [
        | inl e ↦ (none, issued, rw (prompt_parsimony_suggestion, e) refl, tt)
        | inr e ↦ elim (Bool-cases (ltb average policy.high_average_token_threshold)) [
          | inl l ↦ (none, issued, rw (prompt_parsimony_suggestion, e, l) refl, tt)
          | inr l ↦ (
            (guardrail_at uuid controller_node_id generation champion policy average
                parent_trial_ids issued).0,
            (guardrail_at uuid controller_node_id generation champion policy average
                parent_trial_ids issued).1,
            rw (prompt_parsimony_suggestion, e, l) refl,
            guardrail_at-IsBounded average parent_trial_ids issued,
          )
        ]
      ]

  retire_child-IsBounded :
      ⦃f : Float F⦄ (three_decimals : F → String) (worst : Option (ChildScore F))
      (parent_trial_ids : List SuggestionId) (issued : ℕ)
      → Each (λ c. Held champion c.child_id) worst
      → Good
          (retire_child uuid three_decimals controller_node_id generation champion policy worst
            parent_trial_ids issued).0
  unfolding retire_child
  retire_child-IsBounded three_decimals none parent_trial_ids issued held = tt
  retire_child-IsBounded ⦃f⦄ three_decimals (some worst) parent_trial_ids issued held =
      elim (Bool-cases (f.less policy.retirement_average_score_below worst.average)) [
        | inl e ↦ rw e tt
        | inr e ↦ rw e (
            bounded_suggestion-IsBounded issued "retire_low_fitness_child"
              (set_node_status worst.child_id retired) _
              (append_text "candidate_child=" worst.child_id
                ∷ append_text "child_task_count=" (decimal worst.count)
                ∷ append_text "child_average_score=" (three_decimals worst.average)
                ∷ [])
              parent_trial_ids (retirement-Applies uuid fuel issued champion worst.child_id held))
      ]

  pub retirement_suggestion-IsBounded :
      ⦃f : Float F⦄ (three_decimals : F → String) (recent_traces : List (TaskTrace F))
      (parent_trial_ids : List SuggestionId) (issued : ℕ)
      → IsTree champion
      → Good
          (retirement_suggestion uuid three_decimals controller_node_id generation champion policy
            recent_traces parent_trial_ids issued).0
  unfolding retirement_suggestion
  retirement_suggestion-IsBounded three_decimals recent_traces parent_trial_ids issued tree =
      elim (Option-cases (get controller_node_id champion.nodes)) [
        | inl e ↦ rw (retirement_suggestion, e) tt
        | inr (parent, e) ↦
            elim (Bool-cases (leb (length (active_children champion parent.children)) 1)) [
              | inl l ↦ rw (retirement_suggestion, e, l) tt
              | inr l ↦
                  rw (retirement_suggestion, e, l)
                    (retire_child-IsBounded three_decimals _ parent_trial_ids issued
                      (worst-Held champion tree parent.children recent_traces _))
            ]
      ]
