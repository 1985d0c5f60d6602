-- ===== src/Controller/Evolution/Plan.antt =====
-- `plan_evolution_generation` of crates/vsm-controller/src/evolution.rs: the suggestions of one generation, with its
-- record. `F` stands for `f64`, `now` for `Utc::now()`.
use vsm_agent_kernel.Base.{
  ℕ, ◌+◌, ◌-◌, String, Option, none, some, List, [], ◌∷◌, map, length, is_empty, nat_beq,
  string_key, if◌then◌else◌,
}
use vsm_agent_kernel.Base.Decimal.{decimal, least}
use vsm_agent_kernel.Base.Entries.{update_entry}
use vsm_agent_kernel.Base.Float.{Float}
use vsm_agent_kernel.Base.TreeMap.{TreeMap, insert}
use vsm_agent_kernel.Core.Id.{NodeId, SuggestionId}
use vsm_agent_kernel.Core.Genome.{OrganizationalGenome}
use vsm_agent_kernel.Core.Suggestion.{GeneSuggestion}
use vsm_agent_kernel.Core.Trace.{TaskTrace}
use vsm_agent_kernel.Ledger.Archive.{PopulationArchiveRecord, new_generation_record}
use vsm_agent_kernel.Ledger.Trial.{StoredTrialRecord}
use vsm_agent_kernel.Controller.Evolution.{
  EvolutionPolicy, EvolutionPlan, ParentCandidate, suggestion_operator, maybe_push,
}
use vsm_agent_kernel.Controller.Evolution.Parents.{select_parent_candidates}
use vsm_agent_kernel.Controller.Evolution.Offspring.{Draw, prompt_parsimony_suggestion}
use vsm_agent_kernel.Controller.Evolution.Retirement.{retirement_suggestion}
use vsm_agent_kernel.Controller.Evolution.Recombination.{recombination_suggestion}

unfoldable pub count_operators : List GeneSuggestion → TreeMap String ℕ → TreeMap String ℕ
unfolding update_entry suggestion_operator
count_operators [] counts = counts
count_operators (s ∷ rest) counts =
    count_operators rest (update_entry (suggestion_operator s) 0 (λ n. n + 1) counts)

unfoldable pub room : {F : Type 0} → EvolutionPolicy F → List (StoredTrialRecord F) → ℕ
room policy queued_trials =
    least (policy.population_size - length queued_trials) policy.max_offspring_per_generation

abbrev pub parent_ids : {F : Type 0} → List (ParentCandidate F) → List SuggestionId
parent_ids parents = map (λ parent. parent.stored.trial_id) parents

module _ {F : Type 0} (now : ℕ) (controller_node_id : NodeId) (generation : ℕ)
    (champion : OrganizationalGenome) (policy : EvolutionPolicy F)
    (queued_trials : List (StoredTrialRecord F)) (recent_traces : List (TaskTrace F)) where
  -- The plan for the suggestions, unless there are none.
  unfoldable pub assemble : List SuggestionId → List GeneSuggestion → Option EvolutionPlan
  unfolding count_operators insert decimal
  assemble parent_trial_ids suggestions =
      let fresh =
        new_generation_record now controller_node_id generation champion.id policy.name
          parent_trial_ids (map (λ s. s.id) suggestions) (count_operators suggestions []) in
      if is_empty suggestions
      then none
      else some (record {
        generation_record = record fresh {
          metadata = insert "queued_candidate_count" (decimal (length queued_trials)) (
              insert "recent_trace_count" (decimal (length recent_traces)) (
                insert "selection_policy" "elite_empirical_score_plus_trace_pressure_v1"
                  fresh.metadata));
        };
        suggestions = suggestions;
      })

unfoldable pub pushed :
    ℕ → Option GeneSuggestion → Option GeneSuggestion → Option GeneSuggestion → List GeneSuggestion
unfolding maybe_push
pushed capacity first second third =
    maybe_push (maybe_push (maybe_push [] capacity first) capacity second) capacity third

module _ {F : Type 0} ⦃f : Float F⦄ (uuid : ℕ → String) (fuel now : ℕ) (three_decimals : F → String)
    (controller_node_id : NodeId) (generation : ℕ) (champion : OrganizationalGenome)
    (policy : EvolutionPolicy F) (queued_trials : List (StoredTrialRecord F))
    (recent_traces : List (TaskTrace F)) where
  -- With the first operator's outcome; each operator runs whether or not there is room for its suggestion.
  unfoldable pub plan_after :
      ℕ → List (ParentCandidate F) → Draw → Option (Option EvolutionPlan × ℕ)
  unfolding retirement_suggestion recombination_suggestion pushed assemble
  plan_after capacity parents none = none
  plan_after capacity parents (some (first, issued)) =
      let (second, drawn) =
        retirement_suggestion uuid three_decimals controller_node_id generation champion policy
          recent_traces (parent_ids parents) issued in
      elim (recombination_suggestion uuid fuel controller_node_id generation champion policy parents
        drawn) [
          | none ↦ none
          | some (third, all_drawn) ↦ some (
            assemble now controller_node_id generation champion policy queued_trials recent_traces
                (parent_ids parents) (pushed capacity first second third),
            all_drawn,
          )
        ]

  unfoldable pub plan_evolution_generation :
      List (StoredTrialRecord F)
      → List (PopulationArchiveRecord F)
      → ℕ
      → Option (Option EvolutionPlan × ℕ)
  unfolding select_parent_candidates prompt_parsimony_suggestion plan_after room
  plan_evolution_generation completed_trials population_archive issued =
      let capacity = room policy queued_trials in
      let parents = select_parent_candidates completed_trials population_archive policy in
      let first =
        prompt_parsimony_suggestion uuid controller_node_id generation champion policy recent_traces
          (parent_ids parents) issued in
      if nat_beq capacity 0 then some (none, issued) else plan_after capacity parents first
