-- ===== src/Ledger/Examples.antt =====
-- The in-memory ledger with a few events, trials and generations, with numbers for `f64` and strings for
-- the JSON values.
use vsm_agent_kernel.Base.{
  ◌⊎◌, ℕ, ◌+◌, String, ◌≡◌, ◌↔◌, refl, true, none, some, List, [], ◌∷◌, string_key, nat_key,
  pair_key, ◌==◌, length, retain, contains, if◌then◌else◌,
}
use vsm_agent_kernel.Base.TreeMap.{get, values}
use vsm_agent_kernel.Base.Sorting.{sort_by, IsStableSort, ascending, descending}
use vsm_agent_kernel.Core.Id.{NodeId}
use vsm_agent_kernel.Core.Fixtures.{one}
use vsm_agent_kernel.Core.Genome.{new}
use vsm_agent_kernel.Core.Patch.{remove_subtree_patch}
use vsm_agent_kernel.Core.Suggestion.{GeneSuggestion, new_suggestion, algedonic_signal}
use vsm_agent_kernel.Ledger.EventKind.Keys.{event_key_injective}
use vsm_agent_kernel.Ledger.Trial.{StoredTrialRecord, queued_record, active_record, mark_frozen}
use vsm_agent_kernel.Ledger.Archive.{EvolutionGenerationRecord, new_generation_record}
use vsm_agent_kernel.Ledger.Event.{LedgerEvent, EventFilter, task_routed, trace_written}
use vsm_agent_kernel.Ledger.Limits.Ends.{KeepsNewest, KeepsFirst, IsMaximum}
use vsm_agent_kernel.Ledger.Memory.{
  InMemoryLedger, filter_event, is_queued, is_active, is_completed, recent_events,
  queued_trial_records, completed_trial_records, latest_evolution_generation_record,
  set_champion_genome, get_champion_genome,
}
use vsm_agent_kernel.Ledger.Memory.Filter.{Matches, filter_event_iff}
use vsm_agent_kernel.Ledger.Memory.Champion.{is_champion_id, get-set_champion_genome}
use vsm_agent_kernel.Ledger.Memory.Reads.{
  event_time, start_time, update_time, records_of, recent_events_newest, trial_records_ordered,
  trial_records_partition, latest_evolution_generation_record_greatest,
}

abbrev routed_at : ℕ → String → LedgerEvent String
routed_at time id = record {
  id = id;
  kind = task_routed;
  created_at = time;
  genome_id = none;
  node_id = some "n";
  task_id = none;
  directive_id = none;
  suggestion_id = none;
  correlation_id = none;
  payload = "{}";
  metadata = [];
}

abbrev routing_filter : EventFilter
routing_filter = record {
  kinds = task_routed ∷ [];
  node_id = some "n";
  task_id = none;
  directive_id = none;
  correlation_id = none;
  since = some 2;
  limit = some 2;
}

abbrev suggestion : String → GeneSuggestion
suggestion id = new_suggestion id "n" "n" algedonic_signal (remove_subtree_patch "c") "smaller"

abbrev waiting : StoredTrialRecord ℕ
waiting = queued_record 0 5 "n" "g" "g1" (suggestion "s1")

abbrev stopped : StoredTrialRecord ℕ
stopped = mark_frozen 9 "pain" (active_record 0 6 "n" "g" "g2" (suggestion "s2"))

abbrev generation : ℕ → EvolutionGenerationRecord
generation n = new_generation_record 7 "n" n "g" "pareto" [] [] []

abbrev filled : InMemoryLedger ℕ String
filled = record {
  events = routed_at 4 "b" ∷ routed_at 1 "old" ∷ routed_at 3 "a" ∷ routed_at 4 "c" ∷ [];
  traces = [];
  genomes = [];
  champion_genomes = ("n", "g0") ∷ [];
  trials = ("s1", waiting) ∷ ("s2", stopped) ∷ [];
  population_archive = [];
  evolution_generations = (("n", 1), generation 1) ∷ (("n", 2), generation 2) ∷ [];
}

-- The first event is too old, and the limit leaves the two newest ones.
newest_two : recent_events filled routing_filter ≡ routed_at 4 "b" ∷ routed_at 4 "c" ∷ []
unfolding recent_events sort_by retain filter_event contains
newest_two = refl

filter_event_iff_example :
    (filter_event (routed_at 4 "b") routing_filter ≡ true)
    ↔ Matches (routed_at 4 "b") routing_filter
filter_event_iff_example = filter_event_iff (routed_at 4 "b") routing_filter

recent_events_newest_example :
    (sorted : List (LedgerEvent String)) × IsStableSort
      (ascending event_time)
      event_time
      (retain (λ event. filter_event event routing_filter) filled.events)
      sorted
    × KeepsNewest (some 2) sorted (recent_events filled routing_filter)
recent_events_newest_example = recent_events_newest filled routing_filter

trial_records_ordered_example :
    ((sorted : List (StoredTrialRecord ℕ)) × IsStableSort
        (ascending start_time)
        start_time
        (records_of filled "n" is_queued)
        sorted
      × KeepsFirst 1 sorted (queued_trial_records filled "n" 1))
    × ((sorted : List (StoredTrialRecord ℕ)) × IsStableSort
          (descending update_time)
          update_time
          (records_of filled "n" is_completed)
          sorted
        × KeepsFirst 1 sorted (completed_trial_records filled "n" 1))
trial_records_ordered_example = trial_records_ordered filled "n" 1

trial_records_partition_example :
    length (queued_trial_records filled "n" 0)
      + length (records_of filled "n" is_active)
      + length (completed_trial_records filled "n" 0)
    ≡ length (retain (λ r. r.controller_node_id == "n") (values filled.trials))
trial_records_partition_example = trial_records_partition filled "n"

abbrev generations : List EvolutionGenerationRecord
generations = retain (λ r. r.controller_node_id == "n") (values filled.evolution_generations)

latest_evolution_generation_record_greatest_example :
    ((latest_evolution_generation_record filled "n" ≡ none) × (generations ≡ []))
    ⊎ ((r : EvolutionGenerationRecord) × (latest_evolution_generation_record filled "n" ≡ some r)
        × IsMaximum (λ s. s.generation) generations r)
latest_evolution_generation_record_greatest_example =
    latest_evolution_generation_record_greatest filled "n"

abbrev node_n : NodeId
node_n = "n"

get-set_champion_genome_example :
    get_champion_genome (set_champion_genome 8 filled node_n one.genome) "m" ≡ (
      if node_n == "m"
      then some one.genome
      else if is_champion_id (get "m" filled.champion_genomes) "g"
      then some one.genome
      else get_champion_genome filled "m")
unfolding new
get-set_champion_genome_example = get-set_champion_genome 8 filled node_n "m" one.genome

event_key_injective_example : trace_written ≡ trace_written
event_key_injective_example = event_key_injective trace_written trace_written refl
