-- ===== src/Controller/Evolution/Planned.antt =====
-- What `plan_evolution_generation` (crates/vsm-controller/src/evolution.rs) proposes, and that it returns.
use vsm_agent_kernel.Base.{
  ℕ, ◌+◌, ◌≤◌, ◌<◌, String, ◌≡◌, refl, inl, inr, Option, none, some, List, [], ◌∷◌, map, length,
  length-append, length-take, length-map, retain, All-take, All, All-append, All-retain, ltb,
  nat_beq, string_key, arith, Bool-cases,
}
use vsm_agent_kernel.Base.Float.{Float}
use vsm_agent_kernel.Base.Sorting.{All-sort_by}
use vsm_agent_kernel.Base.TreeMap.{TreeMap}
use vsm_agent_kernel.Core.Id.{NodeId, SuggestionId}
use vsm_agent_kernel.Core.Genome.{OrganizationalGenome}
use vsm_agent_kernel.Core.Genome.Tree.{IsTree}
use vsm_agent_kernel.Core.Suggestion.{GeneSuggestion}
use vsm_agent_kernel.Core.Trace.{TaskTrace}
use vsm_agent_kernel.Ledger.Archive.{PopulationArchiveRecord}
use vsm_agent_kernel.Ledger.Trial.{StoredTrialRecord}
use vsm_agent_kernel.Controller.Evolution.{
  EvolutionPolicy, EvolutionPlan, ParentCandidate, maybe_push,
}
use vsm_agent_kernel.Controller.Evolution.Held.{Each}
use vsm_agent_kernel.Controller.Evolution.Bounded.{
  IsBounded, Returns, prompt_parsimony_suggestion-Returns, retirement_suggestion-IsBounded,
}
use vsm_agent_kernel.Controller.Evolution.Recombined.{Modest, recombination_suggestion-Returns}
use vsm_agent_kernel.Controller.Evolution.Parents.{
  is_parent, archive_scores, parent_candidate, better_first, select_parent_candidates,
}
use vsm_agent_kernel.Controller.Evolution.Offspring.{Draw}
use vsm_agent_kernel.Controller.Evolution.Retirement.{retirement_suggestion}
use vsm_agent_kernel.Controller.Evolution.Plan.{
  room, parent_ids, assemble, pushed, plan_after, plan_evolution_generation,
}

-- A plan is not empty, leaves the population within its size, and its record names its suggestions.
pub record IsPlan {F : Type 0} (uuid : ℕ → String) (fuel : ℕ) (champion : OrganizationalGenome)
    (controller_node_id : NodeId) (policy : EvolutionPolicy F)
    (queued_trials : List (StoredTrialRecord F)) (plan : EvolutionPlan) : Type 0 where
  pub suggests : 0 < length plan.suggestions
  pub population : length plan.suggestions + length queued_trials ≤ policy.population_size
  pub offspring : length plan.suggestions ≤ policy.max_offspring_per_generation
  pub parents : length plan.generation_record.parent_trial_ids ≤ policy.elite_count
  pub named : plan.generation_record.offspring_trial_ids ≡ map (λ s. s.id) plan.suggestions
  pub bounded_each : All (IsBounded uuid fuel champion controller_node_id policy) plan.suggestions

module _ (P : GeneSuggestion → Type 0) where
  All-maybe_push :
      (xs : List GeneSuggestion) (capacity : ℕ) (o : Option GeneSuggestion)
      → All P xs
      → Each P o
      → All P (maybe_push xs capacity o)
  unfolding maybe_push
  All-maybe_push xs capacity none h p = h
  All-maybe_push xs capacity (some s) h p = elim (Bool-cases (ltb (length xs) capacity)) [
    | inl e ↦ rw e (All-append P xs (s ∷ []) h (p, tt))
    | inr e ↦ rw e h
  ]

length-maybe_push :
    (xs : List GeneSuggestion) (capacity : ℕ) (o : Option GeneSuggestion)
    → length xs ≤ capacity
    → length (maybe_push xs capacity o) ≤ capacity
unfolding maybe_push
length-maybe_push xs capacity none h = h
length-maybe_push xs capacity (some s) h = ground (arith, length-append xs (s ∷ []))

module _ {F : Type 0} ⦃f : Float F⦄ (g : ℕ) where
  -- What holds of the patches of all completed trials holds of the parents' patches.
  parent_candidate-Modest :
      (scores : TreeMap SuggestionId F) (rs : List (StoredTrialRecord F))
      → All (λ r. Modest g r.suggestion.patch) rs
      → All (λ p. Modest g p.stored.suggestion.patch) (map (parent_candidate scores) rs)
  unfolding parent_candidate
  parent_candidate-Modest scores [] h = tt
  parent_candidate-Modest scores (r ∷ rs) h = (h.0, parent_candidate-Modest scores rs h.1)

  select_parent_candidates-Modest :
      (completed_trials : List (StoredTrialRecord F))
      (population_archive : List (PopulationArchiveRecord F)) (policy : EvolutionPolicy F)
      → All (λ r. Modest g r.suggestion.patch) completed_trials
      → All
          (λ p. Modest g p.stored.suggestion.patch)
          (select_parent_candidates completed_trials population_archive policy)
  unfolding select_parent_candidates
  select_parent_candidates-Modest completed_trials population_archive policy h =
      let scores = archive_scores population_archive [] in
      All-take _ policy.elite_count _ (
        All-sort_by _ better_first _ (
          parent_candidate-Modest scores (retain (λ r. is_parent r.status) completed_trials)
            (All-retain (λ r. is_parent r.status) (λ r passed modest. modest) completed_trials h)))

length-select_parent_candidates :
    {F : Type 0} ⦃f : Float F⦄ (completed_trials : List (StoredTrialRecord F))
    (population_archive : List (PopulationArchiveRecord F)) (policy : EvolutionPolicy F)
    → length (select_parent_candidates completed_trials population_archive policy)
      ≤ policy.elite_count
unfolding select_parent_candidates
length-select_parent_candidates completed_trials population_archive policy =
    length-take policy.elite_count _

module _ {F : Type 0} (uuid : ℕ → String) (fuel now : ℕ) (controller_node_id : NodeId)
    (generation : ℕ) (champion : OrganizationalGenome) (policy : EvolutionPolicy F)
    (queued_trials : List (StoredTrialRecord F)) (recent_traces : List (TaskTrace F)) where
  assemble-IsPlan :
      (parent_trial_ids : List SuggestionId) (suggestions : List GeneSuggestion)
      → length parent_trial_ids ≤ policy.elite_count
      → length suggestions ≤ room policy queued_trials
      → All (IsBounded uuid fuel champion controller_node_id policy) suggestions
      → Each (IsPlan uuid fuel champion controller_node_id policy queued_trials) (
          assemble now controller_node_id generation champion policy queued_trials recent_traces
            parent_trial_ids suggestions)
  unfolding assemble room
  assemble-IsPlan parent_trial_ids [] few fits good = tt
  assemble-IsPlan parent_trial_ids (s ∷ rest) few fits good = record {
    suggests = omega arith;
    population = ground arith;
    offspring = ground arith;
    parents = few;
    named = refl;
    bounded_each = good;
  }

module _ (P : GeneSuggestion → Type 0) (capacity : ℕ)
    (first second third : Option GeneSuggestion) where
  All-pushed :
      Each P first → Each P second → Each P third → All P (pushed capacity first second third)
  unfolding pushed
  All-pushed p q r =
      All-maybe_push P _ capacity third
        (All-maybe_push P _ capacity second (All-maybe_push P [] capacity first tt p) q) r

length-pushed :
    (capacity : ℕ) (first second third : Option GeneSuggestion)
    → length (pushed capacity first second third) ≤ capacity
unfolding pushed
length-pushed capacity first second third =
    length-maybe_push _ capacity third
      (length-maybe_push _ capacity second (length-maybe_push [] capacity first (omega arith)))

module _ {F : Type 0} ⦃f : Float F⦄ (uuid : ℕ → String) (fuel now : ℕ) (three_decimals : F → String)
    (controller_node_id : NodeId) (generation : ℕ) (champion : OrganizationalGenome)
    (policy : EvolutionPolicy F) (queued_trials : List (StoredTrialRecord F))
    (recent_traces : List (TaskTrace F)) where
  abbrev pub Planned : Option (Option EvolutionPlan × ℕ) → Type 0
  Planned run =
      (outcome : Option EvolutionPlan) × (drawn : ℕ) × (run ≡ some (outcome, drawn))
      × Each (IsPlan uuid fuel champion controller_node_id policy queued_trials) outcome

  module _ (g : ℕ) (tree : IsTree champion) (enough : tree.height + g + g < fuel) where
    plan_after-Plans :
        (parents : List (ParentCandidate F)) (first : Draw)
        → All (λ p. Modest g p.stored.suggestion.patch) parents
        → length parents ≤ policy.elite_count
        → Returns uuid fuel controller_node_id generation champion policy first
        → Planned (
            plan_after uuid fuel now three_decimals controller_node_id generation champion policy
              queued_trials recent_traces
              (room policy queued_trials)
              parents
              first)
    unfolding plan_after
    plan_after-Plans parents first modest few (made, issued, e, good) =
        let later =
          retirement_suggestion uuid three_decimals controller_node_id generation champion policy
            recent_traces (parent_ids parents) issued in
        let (third, drawn, r, good_third) =
          recombination_suggestion-Returns uuid fuel controller_node_id generation champion policy g
            tree enough parents later.1 modest in
        (
          assemble now controller_node_id generation champion policy queued_trials recent_traces
              (parent_ids parents) (pushed (room policy queued_trials) made later.0 third),
          drawn,
          rw (e, plan_after, r) refl,
          assemble-IsPlan uuid fuel now controller_node_id generation champion policy queued_trials
              recent_traces (parent_ids parents) _
              (omega (arith, few, length-map (λ p. p.stored.trial_id) parents))
              (length-pushed (room policy queued_trials) made later.0 third)
              (All-pushed (IsBounded uuid fuel champion controller_node_id policy)
                (room policy queued_trials) made later.0 third good
                (retirement_suggestion-IsBounded uuid fuel controller_node_id generation champion
                  policy three_decimals recent_traces (parent_ids parents) issued tree)
                good_third),
        )

    pub plan_evolution_generation-Planned :
        (completed_trials : List (StoredTrialRecord F))
        (population_archive : List (PopulationArchiveRecord F)) (issued : ℕ)
        → All (λ r. Modest g r.suggestion.patch) completed_trials
        → 0 < policy.min_pressure_traces
        → Planned (
            plan_evolution_generation uuid fuel now three_decimals controller_node_id generation
              champion policy queued_trials recent_traces completed_trials population_archive
              issued)
    unfolding plan_evolution_generation
    plan_evolution_generation-Planned completed_trials population_archive issued modest pressure =
        let parents = select_parent_candidates completed_trials population_archive policy in
        elim (Bool-cases (nat_beq (room policy queued_trials) 0)) [
          | inl e ↦ (none, issued, rw e refl, tt)
          | inr e ↦ rw e (
              plan_after-Plans parents _
                (select_parent_candidates-Modest g completed_trials population_archive policy
                  modest)
                (length-select_parent_candidates completed_trials population_archive policy)
                (prompt_parsimony_suggestion-Returns uuid fuel controller_node_id generation
                  champion policy recent_traces (parent_ids parents) issued pressure))
        ]
