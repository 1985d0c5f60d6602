-- ===== src/Controller/EvolutionExamples.antt =====
-- A generation of the evolution for a controller with one child and two completed trials.
use vsm_agent_kernel.Base.{
  ℕ, String, ◌≡◌, refl, Option, none, some, List, [], ◌∷◌, map, string_key, arith,
}
use vsm_agent_kernel.Base.TreeMap.{get, insert, modify}
use vsm_agent_kernel.Core.Genome.{new, add_child, update_node}
use vsm_agent_kernel.Core.Fixtures.{uuid, two, two-Within, nat_float}
use vsm_agent_kernel.Core.Node.{probation}
use vsm_agent_kernel.Core.Patch.{set_node_status}
use vsm_agent_kernel.Core.Patch.Shape.{childless, growth}
use vsm_agent_kernel.Core.Suggestion.{new_suggestion, algedonic_signal}
use vsm_agent_kernel.Core.Trace.{TaskTrace, started}
use vsm_agent_kernel.Ledger.Trial.{StoredTrialRecord, active_record, promoted}
use vsm_agent_kernel.Controller.Evolution.{EvolutionPlan, default_policy, suggestion_operator}
use vsm_agent_kernel.Controller.Evolution.Planned.{Planned, plan_evolution_generation-Planned}
use vsm_agent_kernel.Controller.Evolution.Plan.{plan_evolution_generation}

abbrev completed : String → StoredTrialRecord ℕ
completed id =
    record (active_record 0 1 "r" "g" "g2"
      (new_suggestion id "r" "r" algedonic_signal (set_node_status "c" probation) "calmer")) {
        status = promoted;
      }

abbrev heavy : TaskTrace ℕ
heavy = record (started 4 "x" 0 "t" "g" "c") { input_tokens = 150000 }

abbrev traces : List (TaskTrace ℕ)
traces = heavy ∷ heavy ∷ heavy ∷ heavy ∷ heavy ∷ []

plan_evolution_generation-Planned_example :
    Planned uuid 2 7
      (λ x. "0.000")
      "r"
      1
      two.genome
      default_policy
      []
      traces
      (plan_evolution_generation uuid 2 7
        (λ x. "0.000")
        "r"
        1
        two.genome
        default_policy
        []
        traces
        (completed "a" ∷ completed "b" ∷ [])
        []
        0)
unfolding childless growth
plan_evolution_generation-Planned_example =
    plan_evolution_generation-Planned uuid 2 7 (λ x. "0.000") "r" 1 two.genome default_policy []
      traces 0 two-Within.0 (omega (arith, two-Within.1)) (completed "a" ∷ completed "b" ∷ []) [] 0
      ((refl, omega arith), ((refl, omega arith), tt)) (omega arith)

abbrev operators_of : Option (Option EvolutionPlan × ℕ) → List String
operators_of none = []
operators_of (some (none, drawn)) = []
operators_of (some (some plan, drawn)) = map suggestion_operator plan.suggestions

-- The guardrail and the recombination, but no retirement of the only child.
two_suggestions :
    operators_of (
      plan_evolution_generation uuid 2 7
        (λ x. "0.000")
        "r"
        1
        two.genome
        default_policy
        []
        traces
        (completed "a" ∷ completed "b" ∷ [])
        []
        0)
    ≡ "add_prompt_parsimony_guardrail" ∷ "recombine_elite_parent_patches" ∷ []
unfolding plan_evolution_generation suggestion_operator new add_child update_node get insert modify
two_suggestions = refl
