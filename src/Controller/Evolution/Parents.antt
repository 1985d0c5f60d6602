-- ===== src/Controller/Evolution/Parents.antt =====
-- The parents of a generation (crates/vsm-controller/src/evolution.rs, `select_parent_candidates`): completed
-- trials with the best scores. `F` stands for `f64`.
use vsm_agent_kernel.Base.{
  Bool, true, false, List, [], ◌∷◌, map, leb, retain, take, string_key, if◌then◌else◌,
}
use vsm_agent_kernel.Base.Entries.{unwrap_or}
use vsm_agent_kernel.Base.Float.{Float}
use vsm_agent_kernel.Base.Sorting.{sort_by}
use vsm_agent_kernel.Base.TreeMap.{TreeMap, get, insert}
use vsm_agent_kernel.Core.Id.{SuggestionId}
use vsm_agent_kernel.Ledger.Archive.{
  PopulationArchiveStatus, PopulationArchiveRecord, selected_for_trial, pareto_frontier, promoted,
}
use vsm_agent_kernel.Ledger.Trial.{
  StoredTrialStatus, StoredTrialRecord, promoted as trial_promoted, pruned as trial_pruned,
}
use vsm_agent_kernel.Controller.Evolution.{EvolutionPolicy, ParentCandidate}

unfoldable pub archive_is_elite : PopulationArchiveStatus → Bool
archive_is_elite selected_for_trial = true
archive_is_elite pareto_frontier = true
archive_is_elite promoted = true
archive_is_elite _ = false

unfoldable pub is_parent : StoredTrialStatus → Bool
is_parent trial_promoted = true
is_parent trial_pruned = true
is_parent _ = false

module _ {F : Type 0} ⦃f : Float F⦄ where
  -- `collect` into a map: a later record of a trial replaces an earlier one.
  unfoldable pub archive_scores :
      List (PopulationArchiveRecord F) → TreeMap SuggestionId F → TreeMap SuggestionId F
  unfolding insert archive_is_elite
  archive_scores [] scores = scores
  archive_scores (r ∷ rest) scores =
      archive_scores rest
        (if archive_is_elite r.status then insert r.trial_id r.selection_score scores else scores)

  unfoldable pub parent_candidate : TreeMap SuggestionId F → StoredTrialRecord F → ParentCandidate F
  unfolding get
  parent_candidate scores r = record {
    stored = r;
    score = unwrap_or r.total_score (get r.trial_id scores);
  }

  -- The comparison of `sort_by` is not `Greater`: the better score first, then the later update.
  unfoldable pub better_first : ParentCandidate F → ParentCandidate F → Bool
  better_first left right =
      if f.less right.score left.score
      then true
      else if f.less left.score right.score
      then false
      else leb right.stored.updated_at left.stored.updated_at

  unfoldable pub select_parent_candidates :
      List (StoredTrialRecord F)
      → List (PopulationArchiveRecord F)
      → EvolutionPolicy F
      → List (ParentCandidate F)
  unfolding retain sort_by archive_scores is_parent better_first parent_candidate
  select_parent_candidates completed_trials population_archive policy =
      let scores = archive_scores population_archive [] in
      let parents =
        map (parent_candidate scores) (retain (λ r. is_parent r.status) completed_trials) in
      take policy.elite_count (sort_by better_first parents)
