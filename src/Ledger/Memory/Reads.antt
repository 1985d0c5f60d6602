-- ===== src/Ledger/Memory/Reads.antt =====
-- What the reads of the ledger (crates/vsm-ledger/src/memory.rs) return: in which order, and under which
-- limit.
use vsm_agent_kernel.Base.{
  ◌⊎◌, inl, inr, Option, none, some, ℕ, ◌+◌, ◌≡◌, refl, ap, length-append, Bool, ◌&&◌, List, [],
  ◌∷◌, string_key, nat_key, pair_key, arith, ◌==◌, length, retain, if◌then◌else◌,
}
use vsm_agent_kernel.Base.TreeMap.{values}
use vsm_agent_kernel.Base.Sorting.{
  ascending, descending, sort_by, IsStableSort, sort-ascending, sort-descending,
}
use vsm_agent_kernel.Core.Id.{NodeId}
use vsm_agent_kernel.Ledger.Trial.{
  StoredTrialRecord, StoredTrialStatus, queued, active, promoted, pruned, rejected, frozen,
  archived,
}
use vsm_agent_kernel.Ledger.Archive.{EvolutionGenerationRecord}
use vsm_agent_kernel.Ledger.Event.{LedgerEvent, EventFilter}
use vsm_agent_kernel.Ledger.Limits.{max_by}
use vsm_agent_kernel.Ledger.Limits.Ends.{
  KeepsNewest, KeepsFirst, newest-KeepsNewest, limited-KeepsFirst, IsMaximum, max_by-IsMaximum,
  max_by-none,
}
use vsm_agent_kernel.Ledger.Memory.{
  InMemoryLedger, filter_event, is_queued, is_active, is_completed, recent_events,
  queued_trial_records, completed_trial_records, latest_evolution_generation_record,
}

abbrev pub event_time : {V : Type 0} → LedgerEvent V → ℕ
event_time event = event.created_at

abbrev pub start_time : {F : Type 0} → StoredTrialRecord F → ℕ
start_time r = r.started_at

abbrev pub update_time : {F : Type 0} → StoredTrialRecord F → ℕ
update_time r = r.updated_at

-- The records of a controller whose status passes the test.
abbrev pub records_of :
    {F V : Type 0}
    → InMemoryLedger F V
    → NodeId
    → (StoredTrialStatus → Bool)
    → List (StoredTrialRecord F)
records_of l node test =
    retain (λ r. r.controller_node_id == node && test r.status) (values l.trials)

-- The events that pass the filter, sorted by their time, those of one time in the order in which they
-- were appended. Of this list the read returns the end that the limit keeps.
pub recent_events_newest :
    {F V : Type 0} (l : InMemoryLedger F V) (filter : EventFilter)
    → (sorted : List (LedgerEvent V)) × IsStableSort
        (ascending event_time)
        event_time
        (retain (λ event. filter_event event filter) l.events)
        sorted
      × KeepsNewest filter.limit sorted (recent_events l filter)
unfolding recent_events
recent_events_newest l filter = (
  sort_by (ascending event_time) (retain (λ event. filter_event event filter) l.events),
  sort-ascending event_time (retain (λ event. filter_event event filter) l.events),
  newest-KeepsNewest filter.limit
      (sort_by (ascending event_time) (retain (λ event. filter_event event filter) l.events)),
)

-- The queue of a controller: its queued records, the one that started first at the front, those of one
-- time in the order of the table, up to the limit, where the limit 0 is none. The completed records are
-- the same with the latest update at the front.
pub trial_records_ordered :
    {F V : Type 0} (l : InMemoryLedger F V) (node : NodeId) (limit : ℕ)
    → ((sorted : List (StoredTrialRecord F)) × IsStableSort
          (ascending start_time)
          start_time
          (records_of l node is_queued)
          sorted
        × KeepsFirst limit sorted (queued_trial_records l node limit))
      × ((sorted : List (StoredTrialRecord F)) × IsStableSort
            (descending update_time)
            update_time
            (records_of l node is_completed)
            sorted
          × KeepsFirst limit sorted (completed_trial_records l node limit))
unfolding queued_trial_records completed_trial_records
trial_records_ordered l node limit = (
  (
    sort_by (ascending start_time) (records_of l node is_queued),
    sort-ascending start_time (records_of l node is_queued),
    limited-KeepsFirst limit (sort_by (ascending start_time) (records_of l node is_queued)),
  ),
  (
    sort_by (descending update_time) (records_of l node is_completed),
    sort-descending update_time (records_of l node is_completed),
    limited-KeepsFirst limit (sort_by (descending update_time) (records_of l node is_completed)),
  ),
)

-- A status as three numbers, of which one is 1.
one_status :
    (s : StoredTrialStatus) (b : Bool)
    → (if b && is_queued s then 1 else 0)
        + (if b && is_active s then 1 else 0)
        + (if b && is_completed s then 1 else 0)
      ≡ (if b then 1 else 0)
one_status queued b = ground arith
one_status active b = ground arith
one_status promoted b = ground arith
one_status pruned b = ground arith
one_status rejected b = ground arith
one_status frozen b = ground arith
one_status archived b = ground arith

length-retain-cons :
    {A : Type 0} (p : A → Bool) (x : A) (xs : List A)
    → length (retain p (x ∷ xs)) ≡ (if p x then 1 else 0) + length (retain p xs)
unfolding retain
length-retain-cons p x xs = ground arith

abbrev of_status : {F : Type 0} → NodeId → (StoredTrialStatus → Bool) → StoredTrialRecord F → Bool
of_status node test r = r.controller_node_id == node && test r.status

status_parts :
    {F : Type 0} (node : NodeId) (rs : List (StoredTrialRecord F))
    → length (retain (of_status node is_queued) rs)
        + length (retain (of_status node is_active) rs)
        + length (retain (of_status node is_completed) rs)
      ≡ length (retain (λ r. r.controller_node_id == node) rs)
status_parts node [] = unfold retain in refl
status_parts node (r ∷ rs) = omega (
  arith,
  status_parts node rs,
  one_status r.status (r.controller_node_id == node),
  length-retain-cons (of_status node is_queued) r rs,
  length-retain-cons (of_status node is_active) r rs,
  length-retain-cons (of_status node is_completed) r rs,
  length-retain-cons (λ r. r.controller_node_id == node) r rs,
)

unlimited-length :
    {A : Type 0} (source sorted kept : List A)
    → length sorted ≡ length source
    → KeepsFirst 0 sorted kept
    → length kept ≡ length source
unlimited-length source sorted kept e k =
    omega (arith, e, ap length k.split, length-append kept k.later, k.unlimited refl)

-- Without a limit, the queued and the completed records of a controller and its active ones are as many as
-- its records: every record is in one of the three groups, and in one only.
pub trial_records_partition :
    {F V : Type 0} (l : InMemoryLedger F V) (node : NodeId)
    → length (queued_trial_records l node 0)
        + length (records_of l node is_active)
        + length (completed_trial_records l node 0)
      ≡ length (retain (λ r. r.controller_node_id == node) (values l.trials))
trial_records_partition l node =
    let ((sq, q, kq), (sc, c, kc)) = trial_records_ordered l node 0 in
    omega (
      arith,
      status_parts node (values l.trials),
      unlimited-length (records_of l node is_queued) sq (queued_trial_records l node 0)
          q.same_length kq,
      unlimited-length (records_of l node is_completed) sc (completed_trial_records l node 0)
          c.same_length kc,
    )

latest_of :
    (rs : List EvolutionGenerationRecord) (o : Option EvolutionGenerationRecord)
    → max_by (λ r. r.generation) rs ≡ o
    → ((o ≡ none) × (rs ≡ []))
      ⊎ ((r : EvolutionGenerationRecord) × (o ≡ some r) × IsMaximum (λ s. s.generation) rs r)
latest_of rs none e = inl (refl, max_by-none (λ r. r.generation) rs e)
latest_of rs (some r) e = inr (r, refl, max_by-IsMaximum (λ r. r.generation) rs r e)

-- A controller has no latest generation if it has no generation record. Else its latest one is one of its
-- records, and no record of it has a greater number.
pub latest_evolution_generation_record_greatest :
    {F V : Type 0} (l : InMemoryLedger F V) (node : NodeId)
    → let mine = retain (λ r. r.controller_node_id == node) (values l.evolution_generations) in
      ((latest_evolution_generation_record l node ≡ none) × (mine ≡ []))
      ⊎ ((r : EvolutionGenerationRecord) × (latest_evolution_generation_record l node ≡ some r)
          × IsMaximum (λ s. s.generation) mine r)
unfolding latest_evolution_generation_record
latest_evolution_generation_record_greatest l node =
    latest_of (retain (λ r. r.controller_node_id == node) (values l.evolution_generations))
      (latest_evolution_generation_record l node) refl
