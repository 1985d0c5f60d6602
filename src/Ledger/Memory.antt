-- ===== src/Ledger/Memory.antt =====
-- crates/vsm-ledger/src/memory.rs, and the methods that the trait of crates/vsm-ledger/src/ledger.rs
-- provides. `F` stands for `f64` and `V` for `serde_json::Value`. Each table is behind a mutex that a method
-- holds while it works on it, so that a method on one table is one step; every method returns `Ok`.
pub mod Filter
pub mod Reads
pub mod Champion
use vsm_agent_kernel.Base.{
  ℕ, Bool, true, false, not, ◌&&◌, ◌||◌, Option, none, some, List, [], ◌∷◌, ◌++◌, Key, string_key,
  nat_key, pair_key, ◌==◌, leb, is_empty, retain, any, find, contains, if◌then◌else◌,
}
use vsm_agent_kernel.Base.TreeMap.{TreeMap, get, insert, values, option_map}
use vsm_agent_kernel.Base.Sorting.{sort_by, ascending, descending}
use vsm_agent_kernel.Core.Id.{NodeId, GenomeId, SuggestionId, TraceId}
use vsm_agent_kernel.Core.Genome.{OrganizationalGenome}
use vsm_agent_kernel.Core.Trace.{TaskTrace}
use vsm_agent_kernel.Ledger.Snapshot.{GenomeSnapshot, champion, new_snapshot}
use vsm_agent_kernel.Ledger.Trial.{
  StoredTrialRecord, StoredTrialStatus, queued, active, promoted, pruned, rejected, frozen,
  archived,
}
use vsm_agent_kernel.Ledger.Archive.{
  PopulationArchiveRecord, EvolutionGenerationRecord, is_pareto_member,
}
use vsm_agent_kernel.Ledger.Event.{LedgerEvent, EventFilter, TraceWindow}
use vsm_agent_kernel.Ledger.Limits.{newest, limited, max_by}
use vsm_agent_kernel.Ledger.EventKind.{kind_key}

pub record InMemoryLedger (F V : Type 0) : Type 0 where
  pub events : List (LedgerEvent V)
  pub traces : List (TaskTrace F)
  pub genomes : TreeMap GenomeId GenomeSnapshot
  pub champion_genomes : TreeMap NodeId GenomeId
  pub trials : TreeMap SuggestionId (StoredTrialRecord F)
  pub population_archive : TreeMap SuggestionId (PopulationArchiveRecord F)
  pub evolution_generations : TreeMap (NodeId × ℕ) EvolutionGenerationRecord

-- `event.field.as_ref() != Some(value)` for a field of the filter that is set.
abbrev pub field_ok {ℓ} : {A : Type ℓ} ⦃o : Key A⦄ → Option A → Option A → Bool
field_ok none field = true
field_ok (some wanted) none = false
field_ok (some wanted) (some value) = value == wanted

-- The same for `since`, which the time must not be before.
abbrev pub since_ok : Option ℕ → ℕ → Bool
since_ok none time = true
since_ok (some since) time = leb since time

abbrev pub is_queued : StoredTrialStatus → Bool
is_queued queued = true
is_queued _ = false

abbrev pub is_active : StoredTrialStatus → Bool
is_active active = true
is_active _ = false

-- The statuses that `completed_trial_records` matches.
abbrev pub is_completed : StoredTrialStatus → Bool
is_completed promoted = true
is_completed pruned = true
is_completed rejected = true
is_completed frozen = true
is_completed archived = true
is_completed _ = false

unfoldable pub filter_event : {V : Type 0} → LedgerEvent V → EventFilter → Bool
filter_event event filter =
    if not (is_empty filter.kinds) && not (contains filter.kinds event.kind)
    then false
    else if not (field_ok filter.node_id event.node_id)
    then false
    else if not (field_ok filter.task_id event.task_id)
    then false
    else if not (field_ok filter.directive_id event.directive_id)
    then false
    else if not (field_ok filter.correlation_id event.correlation_id)
    then false
    else if not (since_ok filter.since event.created_at)
    then false
    else true

module _ {F V : Type 0} where
  abbrev pub new_ledger : InMemoryLedger F V
  new_ledger = record {
    events = [];
    traces = [];
    genomes = [];
    champion_genomes = [];
    trials = [];
    population_archive = [];
    evolution_generations = [];
  }

  unfoldable pub append_event : InMemoryLedger F V → LedgerEvent V → InMemoryLedger F V
  append_event l event = record l { events = l.events ++ event ∷ [] }

  unfoldable pub write_task_trace : InMemoryLedger F V → TaskTrace F → InMemoryLedger F V
  write_task_trace l trace = record l { traces = l.traces ++ trace ∷ [] }

  unfoldable pub get_trace : InMemoryLedger F V → TraceId → Option (TaskTrace F)
  get_trace l trace_id = find (λ trace. trace.id == trace_id) l.traces

  unfoldable pub recent_events : InMemoryLedger F V → EventFilter → List (LedgerEvent V)
  recent_events l filter = newest filter.limit (
      sort_by (ascending (λ event. event.created_at))
        (retain (λ event. filter_event event filter) l.events))

  unfoldable pub recent_task_traces : InMemoryLedger F V → TraceWindow → List (TaskTrace F)
  recent_task_traces l window = newest window.limit (
      sort_by (ascending (λ trace. trace.started_at))
        (retain (λ trace. since_ok window.since trace.started_at) l.traces))

  unfoldable pub save_genome_snapshot : InMemoryLedger F V → GenomeSnapshot → InMemoryLedger F V
  save_genome_snapshot l snapshot = record l {
    genomes = insert snapshot.genome_id snapshot l.genomes;
  }

  unfoldable pub get_genome_snapshot : InMemoryLedger F V → GenomeId → Option GenomeSnapshot
  get_genome_snapshot l genome_id = get genome_id l.genomes

  unfoldable pub set_champion_genome_id :
      InMemoryLedger F V → NodeId → GenomeId → InMemoryLedger F V
  set_champion_genome_id l controller_node_id genome_id = record l {
    champion_genomes = insert controller_node_id genome_id l.champion_genomes;
  }

  unfoldable pub get_champion_genome_id : InMemoryLedger F V → NodeId → Option GenomeId
  get_champion_genome_id l controller_node_id = get controller_node_id l.champion_genomes

  -- The two steps of `Ledger::set_champion_genome`.
  unfoldable pub set_champion_genome :
      ℕ → InMemoryLedger F V → NodeId → OrganizationalGenome → InMemoryLedger F V
  unfolding save_genome_snapshot set_champion_genome_id
  set_champion_genome now l controller_node_id genome =
      set_champion_genome_id (save_genome_snapshot l (new_snapshot now genome champion))
        controller_node_id genome.id

  -- `get_genome_snapshot(..).map(|snapshot| snapshot.genome)` for the id, if there is one.
  unfoldable pub genome_of_id : InMemoryLedger F V → Option GenomeId → Option OrganizationalGenome
  unfolding get_genome_snapshot
  genome_of_id l none = none
  genome_of_id l (some genome_id) =
      option_map (λ snapshot. snapshot.genome) (get_genome_snapshot l genome_id)

  unfoldable pub get_champion_genome : InMemoryLedger F V → NodeId → Option OrganizationalGenome
  unfolding get_champion_genome_id genome_of_id
  get_champion_genome l controller_node_id =
      genome_of_id l (get_champion_genome_id l controller_node_id)

  unfoldable pub write_trial_record : InMemoryLedger F V → StoredTrialRecord F → InMemoryLedger F V
  write_trial_record l r = record l { trials = insert r.trial_id r l.trials }

  unfoldable pub get_trial_record : InMemoryLedger F V → SuggestionId → Option (StoredTrialRecord F)
  get_trial_record l trial_id = get trial_id l.trials

  unfoldable pub get_active_trial_record :
      InMemoryLedger F V → NodeId → Option (StoredTrialRecord F)
  get_active_trial_record l node =
      find (λ r. r.controller_node_id == node && is_active r.status) (values l.trials)

  unfoldable pub queued_trial_records : InMemoryLedger F V → NodeId → ℕ → List (StoredTrialRecord F)
  queued_trial_records l node limit = limited limit (
      sort_by (ascending (λ r. r.started_at))
        (retain (λ r. r.controller_node_id == node && is_queued r.status) (values l.trials)))

  unfoldable pub completed_trial_records :
      InMemoryLedger F V → NodeId → ℕ → List (StoredTrialRecord F)
  completed_trial_records l node limit = limited limit (
      sort_by (descending (λ r. r.updated_at))
        (retain (λ r. r.controller_node_id == node && is_completed r.status) (values l.trials)))

  unfoldable pub write_population_archive_record :
      InMemoryLedger F V → PopulationArchiveRecord F → InMemoryLedger F V
  write_population_archive_record l r = record l {
    population_archive = insert r.trial_id r l.population_archive;
  }

  unfoldable pub get_population_archive_record :
      InMemoryLedger F V → SuggestionId → Option (PopulationArchiveRecord F)
  get_population_archive_record l trial_id = get trial_id l.population_archive

  unfoldable pub population_archive_records :
      InMemoryLedger F V → NodeId → ℕ → List (PopulationArchiveRecord F)
  population_archive_records l node limit = limited limit (
      sort_by (descending (λ r. r.updated_at))
        (retain (λ r. r.controller_node_id == node) (values l.population_archive)))

  unfoldable pub pareto_archive_records :
      InMemoryLedger F V → NodeId → ℕ → List (PopulationArchiveRecord F)
  pareto_archive_records l node limit = limited limit (
      sort_by (descending (λ r. r.updated_at)) (
        retain (λ r. r.controller_node_id == node && is_pareto_member r.status)
          (values l.population_archive)))

  unfoldable pub write_evolution_generation_record :
      InMemoryLedger F V → EvolutionGenerationRecord → InMemoryLedger F V
  write_evolution_generation_record l r = record l {
    evolution_generations = insert (r.controller_node_id, r.generation) r l.evolution_generations;
  }

  unfoldable pub latest_evolution_generation_record :
      InMemoryLedger F V → NodeId → Option EvolutionGenerationRecord
  latest_evolution_generation_record l node =
      max_by (λ r. r.generation)
        (retain (λ r. r.controller_node_id == node) (values l.evolution_generations))

  unfoldable pub evolution_generation_records :
      InMemoryLedger F V → NodeId → ℕ → List EvolutionGenerationRecord
  evolution_generation_records l node limit = limited limit (
      sort_by (descending (λ r. r.generation))
        (retain (λ r. r.controller_node_id == node) (values l.evolution_generations)))

  -- `Ledger::subtree_task_traces`.
  unfoldable pub subtree_task_traces :
      InMemoryLedger F V → NodeId → TraceWindow → List (TaskTrace F)
  unfolding recent_task_traces
  subtree_task_traces l node window =
      retain
        (λ trace.
          trace.assigned_node_id == node
          || any (λ ancestor. ancestor == node) trace.responsible_ancestor_ids)
        (recent_task_traces l window)
