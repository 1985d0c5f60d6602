-- ===== src/Worker/Harness/Results.antt =====
-- That what a worker copies and harvests leaves the task and the node of a result
-- (crates/vsm-worker/src/harness.rs).
use vsm_agent_kernel.Base.{
  ℕ, ◌≡◌, refl, String, Option, none, some, List, [], ◌∷◌, any, string_key, ◌==◌, Bool-cases, inl,
  inr,
}
use vsm_agent_kernel.Base.Float.{Float}
use vsm_agent_kernel.Base.Json.{Json, or_else}
use vsm_agent_kernel.Base.Results.{Result, ok, err}
use vsm_agent_kernel.Base.TreeMap.{get}
use vsm_agent_kernel.Core.Envelope.{MessageEnvelope}
use vsm_agent_kernel.Core.Id.{NodeId, TaskId}
use vsm_agent_kernel.Core.Node.{ViableNode}
use vsm_agent_kernel.Core.Task.{TaskPacket, TaskResult}
use vsm_agent_kernel.Core.Trace.{TaskTrace}
use vsm_agent_kernel.Worker.Error.{WorkerError, ModelProviderError}
use vsm_agent_kernel.Worker.Gate.{ensure_executable_leaf}
use vsm_agent_kernel.Worker.Harness.{
  Services, WorkerHarness, completed_with, answered, gated, execution, conclude, finish,
}
use vsm_agent_kernel.Worker.Harness.Metadata.{
  Report, touch, list_field, harvest_files, harvest_artifacts, harvest_provider_artifacts,
  copy_keys, insert_some, copy_trial_metadata, copy_decomposition_metadata, copy_channel_metadata,
  trial_keys, decomposition_keys, channel_keys, joined,
}
use vsm_agent_kernel.Worker.Model.{ModelUsage, ModelResponse}

-- A result is of a task and a node.
pub record IsOf (task_id : TaskId) (node_id : NodeId) (result : TaskResult) : Type 0 where
  pub of_task : result.task_id ≡ task_id
  pub by_node : result.produced_by ≡ node_id

module _ (task_id : TaskId) (node_id : NodeId) where
  module _ {F : Type 0} where
    insert_some-IsOf :
        (key : String) (o : Option String) (report : Report F)
        → IsOf task_id node_id report.0
        → IsOf task_id node_id (insert_some key o report).0
    insert_some-IsOf key none report h = h
    insert_some-IsOf key (some value) report h = record { of_task = h.of_task; by_node = h.by_node }

    copy_keys-IsOf :
        (keys : List String) (lookup : String → Option String) (report : Report F)
        → IsOf task_id node_id report.0
        → IsOf task_id node_id (copy_keys keys lookup report).0
    unfolding copy_keys
    copy_keys-IsOf [] lookup report h = h
    copy_keys-IsOf (key ∷ keys) lookup report h =
        copy_keys-IsOf keys lookup (insert_some key (lookup key) report)
          (insert_some-IsOf key (lookup key) report h)

  module _ {V : Type 0} ⦃j : Json V⦄ (render : V → String) where
    touch-IsOf :
        (o : Option String) (result : TaskResult)
        → IsOf task_id node_id result
        → IsOf task_id node_id (touch o result)
    unfolding touch
    touch-IsOf none result h = h
    touch-IsOf (some name) result h =
        elim (Bool-cases (any (λ e. e == name) result.files_touched)) [
          | inl e ↦ rw e h
          | inr e ↦ rw e (record { of_task = h.of_task; by_node = h.by_node })
        ]

    harvest_artifacts-IsOf :
        (artifacts : List V) (result : TaskResult)
        → IsOf task_id node_id result
        → IsOf task_id node_id (harvest_artifacts render artifacts result)
    unfolding harvest_artifacts
    harvest_artifacts-IsOf [] result h = h
    harvest_artifacts-IsOf (a ∷ artifacts) result h =
        harvest_artifacts-IsOf artifacts _ (record { of_task = h.of_task; by_node = h.by_node })

    harvest_files-IsOf :
        (files : List V) (result : TaskResult)
        → IsOf task_id node_id result
        → IsOf task_id node_id (harvest_files files result)
    unfolding harvest_files touch
    harvest_files-IsOf [] result h = h
    harvest_files-IsOf (file ∷ files) result h =
        harvest_files-IsOf files (touch (j.as_str file) result)
          (touch-IsOf (j.as_str file) result h)

    harvest-IsOf :
        (raw : Option V) (result : TaskResult)
        → IsOf task_id node_id result
        → IsOf task_id node_id (harvest_provider_artifacts render raw result)
    unfolding harvest_provider_artifacts
    harvest-IsOf none result h = h
    harvest-IsOf (some raw) result h =
        harvest_artifacts-IsOf (list_field raw "artifacts") _
          (harvest_files-IsOf (list_field raw "files_touched") result h)

  module _ {F : Type 0} (task : TaskPacket) where
    copy_trial-IsOf :
        (report : Report F)
        → IsOf task_id node_id report.0
        → IsOf task_id node_id (copy_trial_metadata task report).0
    unfolding copy_trial_metadata
    copy_trial-IsOf report h = copy_keys-IsOf trial_keys (λ key. get key task.metadata) report h

    copy_decomposition-IsOf :
        (report : Report F)
        → IsOf task_id node_id report.0
        → IsOf task_id node_id (copy_decomposition_metadata task report).0
    unfolding copy_decomposition_metadata
    copy_decomposition-IsOf report h =
        copy_keys-IsOf decomposition_keys (λ key. get key task.metadata) _
          (insert_some-IsOf "dependency_task_ids" (joined "," task.dependencies) _ (
            insert_some-IsOf "parent_task_id" task.parent_task_id _ (
              insert_some-IsOf "directive_id" task.directive_id _
                (record { of_task = h.of_task; by_node = h.by_node }))))

    copy_channel-IsOf :
        {V : Type 0} (incoming : MessageEnvelope V) (report : Report F)
        → IsOf task_id node_id report.0
        → IsOf task_id node_id (copy_channel_metadata task incoming report).0
    unfolding copy_channel_metadata
    copy_channel-IsOf incoming report h =
        copy_keys-IsOf channel_keys
          (λ key. or_else (get key task.metadata) (get key incoming.metadata)) _
          (insert_some-IsOf "causation_id" incoming.causation_id _ (
            insert_some-IsOf "correlation_id" incoming.correlation_id _
              (record { of_task = h.of_task; by_node = h.by_node })))

module _ {F V S : Type 0} ⦃f : Float F⦄ ⦃j : Json V⦄ (services : Services F V S)
    (harness : WorkerHarness) where
  pub finish-IsOf :
      (task : TaskPacket) (incoming : MessageEnvelope V) (started_at completed_at : ℕ)
      (c : TaskResult × TaskTrace F × Option ModelUsage)
      → IsOf task.id harness.node_id c.0
      → IsOf task.id harness.node_id
          (finish services harness task incoming started_at completed_at c).0
  unfolding finish copy_trial_metadata copy_decomposition_metadata copy_channel_metadata
  finish-IsOf task incoming started_at completed_at (result, trace, usage) h =
      let tried = copy_trial_metadata task (result, trace) in
      copy_channel-IsOf task.id harness.node_id task incoming
        (copy_decomposition_metadata task tried)
        (copy_decomposition-IsOf task.id harness.node_id task tried
          (copy_trial-IsOf task.id harness.node_id task (result, trace) h))

  conclude-answered :
      (task : TaskPacket) (trace : TaskTrace F) (node : ViableNode)
      (a : Result ModelProviderError (ModelResponse V) × S)
      → IsOf task.id harness.node_id
          (conclude services harness task trace (answered services harness node task a).0).0
  unfolding conclude answered completed_with
  conclude-answered task trace node (err e, t) = record { of_task = refl; by_node = refl }
  conclude-answered task trace node (ok response, t) =
      let h =
        harvest-IsOf task.id harness.node_id services.render response.raw _
          (record { of_task = refl; by_node = refl }) in
      record { of_task = h.of_task; by_node = h.by_node }

  conclude-gated :
      (task : TaskPacket) (trace : TaskTrace F) (node : ViableNode) (s : S)
      (gate : Result WorkerError (Unit {0}))
      → IsOf task.id harness.node_id
          (conclude services harness task trace (gated services harness node task gate s).0).0
  unfolding conclude gated
  conclude-gated task trace node s (err e) = record { of_task = refl; by_node = refl }
  conclude-gated task trace node s (ok _) = conclude-answered task trace node _

  pub conclude-execution :
      (task : TaskPacket) (trace : TaskTrace F) (node : ViableNode) (s : S)
      → IsOf task.id harness.node_id
          (conclude services harness task trace (execution services harness node task s).0).0
  unfolding execution
  conclude-execution task trace node s =
      conclude-gated task trace node s (ensure_executable_leaf node task)
