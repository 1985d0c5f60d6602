-- ===== src/Worker/Harness/Metadata.antt =====
-- What a worker copies from a task and its envelope to the result and the trace
-- (crates/vsm-worker/src/harness.rs). `F` stands for `f64`, `V` for `serde_json::Value`.
use Prim.Native.String.{◌++◌ as append_text}
use vsm_agent_kernel.Base.{
  String, Option, none, some, List, [], ◌∷◌, ◌++◌, any, is_empty, string_key, ◌==◌, if◌then◌else◌,
}
use vsm_agent_kernel.Base.Entries.{unwrap_or}
use vsm_agent_kernel.Base.Json.{Json, and_then, or_else}
use vsm_agent_kernel.Base.Chars.{join}
use vsm_agent_kernel.Base.TreeMap.{TreeMap, get, insert}
use vsm_agent_kernel.Core.Channel.{ChannelPriority}
use vsm_agent_kernel.Core.Channel
use vsm_agent_kernel.Core.Envelope.{MessageEnvelope}
use vsm_agent_kernel.Core.Task.{
  RiskClass, low, medium, high, critical, TaskPacket, TaskResult, inline_artifact,
}
use vsm_agent_kernel.Core.Trace.{TaskTrace}
use vsm_agent_kernel.Ledger.Event.{debug_channel}

-- The `{:?}` of a priority and of a risk.
abbrev pub debug_priority : ChannelPriority → String
debug_priority Channel.low = "Low"
debug_priority Channel.normal = "Normal"
debug_priority Channel.high = "High"
debug_priority Channel.critical = "Critical"
debug_priority Channel.interrupt = "Interrupt"

abbrev pub debug_risk : RiskClass → String
debug_risk low = "Low"
debug_risk medium = "Medium"
debug_risk high = "High"
debug_risk critical = "Critical"

-- The result and the trace under way.
abbrev pub Report : Type 0 → Type 0
Report F = TaskResult × TaskTrace F

abbrev pub trial_keys : List String
trial_keys =
    "trial_id" ∷ "related_suggestion_id" ∷ "candidate_genome_id" ∷ "trial_mode" ∷ "trial_route_role"
    ∷ "trial_shadow" ∷ "trial_exposure_basis_points" ∷ "trial_exposure_bucket" ∷ []

abbrev pub decomposition_keys : List String
decomposition_keys =
    "decomposition_policy" ∷ "decomposition_authority" ∷ "decomposition_role"
    ∷ "decomposition_parent_task_id" ∷ "decomposition_task_count" ∷ "decomposition_revision_depth"
    ∷ "decomposition_revision_of_task_id" ∷ "required_capability" ∷ "target_child" ∷ []

abbrev pub joined : String → List String → Option String
joined separator items = if is_empty items then none else some (join separator items)

abbrev pub channel_keys : List String
channel_keys =
    "vsm_source_channel" ∷ "vsm_outbound_channel" ∷ "handoff_kind" ∷ "handoff_channel"
    ∷ "handoff_source_node_id" ∷ "handoff_target_node_id" ∷ "handoff_via_controller_node_id"
    ∷ "handoff_correlation_id" ∷ "handoff_causation_id" ∷ "handoff_envelope_id"
    ∷ "handoff_operation_kind" ∷ "handoff_artifact_count" ∷ "handoff_related_task_id"
    ∷ "handoff_dependency_task_ids" ∷ "handoff_artifact_refs" ∷ "handoff_summary"
    ∷ "management_kind" ∷ "management_channel" ∷ "management_source_node_id"
    ∷ "management_target_node_id" ∷ "management_via_controller_node_id"
    ∷ "management_correlation_id" ∷ "management_causation_id" ∷ "management_envelope_id"
    ∷ "management_operation_kind" ∷ "management_directive_message_id" ∷ "management_policy"
    ∷ "management_related_task_id" ∷ "management_dependency_task_ids" ∷ "coordination_policy"
    ∷ "coordination_kind" ∷ "coordination_signal_message_id" ∷ "coordination_source_node_id"
    ∷ "coordination_target_node_id" ∷ "coordination_severity" ∷ "coordination_affected_node_ids"
    ∷ "coordination_affected_task_ids" ∷ []

module _ {F : Type 0} where
  abbrev pub insert_result_trace_metadata : String → String → Report F → Report F
  insert_result_trace_metadata key value (result, trace) = (
    record result { metadata = insert key value result.metadata },
    record trace { metadata = insert key value trace.metadata },
  )

  abbrev pub insert_some : String → Option String → Report F → Report F
  insert_some key none report = report
  insert_some key (some value) report = insert_result_trace_metadata key value report

  -- The loop over the keys, with the lookup of each.
  unfoldable pub copy_keys : List String → (String → Option String) → Report F → Report F
  unfolding insert
  copy_keys [] lookup report = report
  copy_keys (key ∷ keys) lookup report = copy_keys keys lookup (insert_some key (lookup key) report)

  -- The suggestion is added unless it is there.
  unfoldable pub relate : Option String → TaskTrace F → TaskTrace F
  unfolding any
  relate none trace = trace
  relate (some id) trace =
      if any (λ existing. existing == id) trace.related_suggestion_ids
      then trace
      else record trace { related_suggestion_ids = trace.related_suggestion_ids ++ id ∷ [] }

  unfoldable pub copy_trial_metadata : TaskPacket → Report F → Report F
  unfolding copy_keys relate get
  copy_trial_metadata task report =
      let (result, trace) = copy_keys trial_keys (λ key. get key task.metadata) report in
      (
        result,
        relate (or_else (get "related_suggestion_id" task.metadata) (get "trial_id" task.metadata))
            trace,
      )

  unfoldable pub copy_decomposition_metadata : TaskPacket → Report F → Report F
  unfolding copy_keys insert join get
  copy_decomposition_metadata task report =
      let titled = insert_result_trace_metadata "task_title" task.title report in
      let aimed = insert_result_trace_metadata "task_goal" task.goal titled in
      let directed = insert_some "directive_id" task.directive_id aimed in
      let placed = insert_some "parent_task_id" task.parent_task_id directed in
      let depending = insert_some "dependency_task_ids" (joined "," task.dependencies) placed in
      copy_keys decomposition_keys (λ key. get key task.metadata) depending

  unfoldable pub copy_channel_metadata :
      {V : Type 0} → TaskPacket → MessageEnvelope V → Report F → Report F
  unfolding copy_keys insert get
  copy_channel_metadata task incoming report =
      let outbound =
        insert_result_trace_metadata "vsm_outbound_channel"
          (unwrap_or (debug_channel incoming.channel_type)
            (get "vsm_outbound_channel" incoming.metadata))
          report in
      let ranked =
        insert_result_trace_metadata "channel_priority" (debug_priority incoming.priority)
          outbound in
      let identified = insert_result_trace_metadata "envelope_id" incoming.id ranked in
      let correlated = insert_some "correlation_id" incoming.correlation_id identified in
      let caused = insert_some "causation_id" incoming.causation_id correlated in
      copy_keys channel_keys (λ key. or_else (get key task.metadata) (get key incoming.metadata))
        caused

  abbrev pub trace_insert : String → String → TaskTrace F → TaskTrace F
  trace_insert key value trace = record trace { metadata = insert key value trace.metadata }

  abbrev pub trace_insert_some : String → Option String → TaskTrace F → TaskTrace F
  trace_insert_some key none trace = trace
  trace_insert_some key (some value) trace = trace_insert key value trace

  unfoldable pub copy_all : TreeMap String String → TaskTrace F → TaskTrace F
  unfolding insert
  copy_all [] trace = trace
  copy_all ((key, value) ∷ rest) trace =
      copy_all rest (trace_insert (append_text "task_metadata." key) value trace)

  unfoldable pub copy_replay_metadata : TaskPacket → TaskTrace F → TaskTrace F
  unfolding copy_all insert join
  copy_replay_metadata task trace =
      let titled = trace_insert "task_title" task.title trace in
      let aimed = trace_insert "task_goal" task.goal titled in
      let risky = trace_insert "task_risk" (debug_risk task.risk) aimed in
      let scoped = trace_insert_some "task_scope" (joined "\n" task.scope) risky in
      let spoken =
        trace_insert_some "task_languages" (joined "," task.static_predicates.languages) scoped in
      let modular =
        trace_insert_some "task_modules" (joined "," task.static_predicates.modules) spoken in
      let tagged = trace_insert_some "task_tags" (joined "," task.static_predicates.tags) modular in
      copy_all task.metadata tagged

-- A file that is named for the first time.
unfoldable pub touch : Option String → TaskResult → TaskResult
unfolding any
touch none result = result
touch (some name) result =
    if any (λ existing. existing == name) result.files_touched
    then result
    else record result { files_touched = result.files_touched ++ name ∷ [] }

module _ {V : Type 0} ⦃j : Json V⦄ where
  unfoldable pub harvest_files : List V → TaskResult → TaskResult
  unfolding touch
  harvest_files [] result = result
  harvest_files (file ∷ files) result = harvest_files files (touch (j.as_str file) result)

  -- `Value::to_string` is `render`.
  unfoldable pub harvest_artifacts : (V → String) → List V → TaskResult → TaskResult
  harvest_artifacts render [] result = result
  harvest_artifacts render (artifact ∷ artifacts) result =
      harvest_artifacts render artifacts (record result {
        artifacts = result.artifacts ++ inline_artifact "provider_artifact" (render artifact) ∷ [];
      })

  abbrev pub list_field : V → String → List V
  list_field raw key = unwrap_or [] (and_then (j.get_field raw key) j.as_array)

  unfoldable pub harvest_provider_artifacts : (V → String) → Option V → TaskResult → TaskResult
  unfolding harvest_files harvest_artifacts
  harvest_provider_artifacts render none result = result
  harvest_provider_artifacts render (some raw) result =
      harvest_artifacts render (list_field raw "artifacts")
        (harvest_files (list_field raw "files_touched") result)
