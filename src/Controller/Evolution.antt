-- ===== src/Controller/Evolution.antt =====
-- crates/vsm-controller/src/evolution.rs: what a controller proposes to try next. `F` stands for `f64`. A
-- suggestion draws its id from the stream `uuid`; `issued` counts the ids drawn.
pub mod Parents
pub mod Offspring
pub mod Retirement
pub mod Recombination
pub mod Plan
pub mod Held
pub mod Bounded
pub mod Recombined
pub mod Planned
use Prim.Native.String.{◌++◌ as append_text, len, slice}
use text.Mathlib.Text.{starts_with}
use vsm_agent_kernel.Base.{
  ℕ, ◌+◌, String, Bool, true, false, ◌&&◌, Option, none, some, List, [], ◌∷◌, ◌++◌, any, length,
  is_empty, string_key, ◌==◌, ltb, if◌then◌else◌,
}
use vsm_agent_kernel.Base.Chars.{join}
use vsm_agent_kernel.Base.Decimal.{decimal}
use vsm_agent_kernel.Base.Float.{Float}
use vsm_agent_kernel.Base.Results.{ok, err}
use vsm_agent_kernel.Core.Id.{NodeId, SuggestionId}
use vsm_agent_kernel.Core.Genome.{OrganizationalGenome}
use vsm_agent_kernel.Core.Node.{ViableNode, PromptComponent}
use vsm_agent_kernel.Core.Patch.{OrganizationalGenomePatch, Applied, apply}
use vsm_agent_kernel.Core.Suggestion.{GeneSuggestion, new_suggestion, canary, other}
use vsm_agent_kernel.Ledger.Archive.{EvolutionGenerationRecord}
use vsm_agent_kernel.Ledger.Trial.{StoredTrialRecord}

pub record EvolutionPolicy (F : Type 0) : Type 0 where
  pub name : String
  pub population_size : ℕ
  pub elite_count : ℕ
  pub max_offspring_per_generation : ℕ
  pub recent_trace_limit : ℕ
  pub min_pressure_traces : ℕ
  pub high_average_token_threshold : ℕ
  pub probation_max_tasks : ℕ
  pub probation_token_budget : ℕ
  pub canary_traffic_share_basis_points : ℕ
  pub retirement_min_tasks : ℕ
  pub retirement_average_score_below : F

-- `EvolutionPolicy::default`.
abbrev pub default_policy : {F : Type 0} ⦃f : Float F⦄ → EvolutionPolicy F
default_policy ⦃f⦄ = record {
  name = "system3_deterministic_ga_v1";
  population_size = 6;
  elite_count = 4;
  max_offspring_per_generation = 4;
  recent_trace_limit = 200;
  min_pressure_traces = 5;
  high_average_token_threshold = 120000;
  probation_max_tasks = 10;
  probation_token_budget = 100000;
  canary_traffic_share_basis_points = 1000;
  retirement_min_tasks = 5;
  retirement_average_score_below = f.negate (f.literal 50 1);
}

pub record EvolutionPlan : Type 0 where
  pub generation_record : EvolutionGenerationRecord
  pub suggestions : List GeneSuggestion

pub record ParentCandidate (F : Type 0) : Type 0 where
  pub stored : StoredTrialRecord F
  pub score : F

abbrev pub evolution_source : String
evolution_source = "system3_evolution_generation"

abbrev pub operator_prefix : String
operator_prefix = "evolution_operator="

-- `strip_prefix`, of the first text that has it.
unfoldable pub find_stripped : String → List String → Option String
find_stripped prefix [] = none
find_stripped prefix (s ∷ rest) =
    let others = find_stripped prefix rest in
    if starts_with s prefix then some (slice s (len prefix) (len s)) else others

unfoldable pub suggestion_operator : GeneSuggestion → String
unfolding find_stripped
suggestion_operator suggestion = elim (find_stripped operator_prefix suggestion.evidence) [
  | none ↦ "unknown"
  | some operator ↦ operator
]

unfoldable pub maybe_push : List GeneSuggestion → ℕ → Option GeneSuggestion → List GeneSuggestion
maybe_push suggestions capacity none = suggestions
maybe_push suggestions capacity (some suggestion) =
    if ltb (length suggestions) capacity then suggestions ++ suggestion ∷ [] else suggestions

abbrev pub component_has_tag : String → PromptComponent → Bool
component_has_tag tag component =
    component.active && any (λ candidate. candidate == tag) component.tags

-- `Option::iter`.
abbrev pub option_list {ℓ} : {A : Type ℓ} → Option A → List A
option_list none = []
option_list (some a) = a ∷ []

unfoldable pub prompt_has_tag : ViableNode → String → Bool
unfolding any
prompt_has_tag node tag = any (component_has_tag tag) (
    node.prompt.behavior_rules
    ++ node.prompt.domain_hints
    ++ node.prompt.codebase_conventions
    ++ node.prompt.negative_constraints
    ++ option_list node.prompt.output_contract)

-- `is_ok()` of the outcome, with the ids drawn; `none` if the fuel of the patch does not reach.
unfoldable pub applied_ok : Option Applied → Option (Bool × ℕ)
applied_ok none = none
applied_ok (some (ok _, after)) = some (true, after.issued)
applied_ok (some (err _, after)) = some (false, after.issued)

unfoldable pub patch_applies :
    (ℕ → String) → ℕ → OrganizationalGenome → ℕ → OrganizationalGenomePatch → Option (Bool × ℕ)
unfolding applied_ok apply
patch_applies uuid fuel champion issued patch =
    applied_ok (apply patch uuid fuel (record { genome = champion; issued = issued }))

-- The line of evidence that names the parents, if there are any.
abbrev pub parent_evidence : List SuggestionId → List String
parent_evidence parent_trial_ids =
    if is_empty parent_trial_ids
    then []
    else append_text "evolution_parent_trial_ids=" (join "," parent_trial_ids) ∷ []

-- What the operators of one generation share: who plans, the number of the generation, and the policy.
module _ {F : Type 0} (uuid : ℕ → String) (controller_node_id : NodeId) (generation : ℕ)
    (policy : EvolutionPolicy F) where
  abbrev pub bounded :
      OrganizationalGenomePatch → String → List String → GeneSuggestion → GeneSuggestion
  bounded patch operator evidence fresh = record fresh {
    trial_mode = canary;
    safety_limits = record fresh.safety_limits {
      max_tasks = some policy.probation_max_tasks;
      max_token_budget = some policy.probation_token_budget;
      max_traffic_share_basis_points = some policy.canary_traffic_share_basis_points;
    };
    measurement_plan = record fresh.measurement_plan {
      window_tasks = some policy.probation_max_tasks;
      success_metrics = fresh.measurement_plan.success_metrics ++ "marginal_subtree_fitness" ∷ [];
      failure_metrics = fresh.measurement_plan.failure_metrics ++ "coordination_overhead" ∷ [];
    };
    evidence =
        fresh.evidence
        ++ append_text "evolution_generation=" (decimal generation)
          ∷ append_text operator_prefix operator
          ∷ evidence;
  }

  unfoldable pub bounded_suggestion :
      ℕ
      → String
      → OrganizationalGenomePatch
      → String
      → List String
      → List SuggestionId
      → Option GeneSuggestion × ℕ
  unfolding decimal join
  bounded_suggestion issued operator patch hypothesis evidence parent_trial_ids = (
    some (
        bounded patch operator (parent_evidence parent_trial_ids ++ evidence) (
          new_suggestion (uuid issued) controller_node_id controller_node_id
            (other evolution_source) patch hypothesis)),
    issued + 1,
  )
