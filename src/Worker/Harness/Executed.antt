-- ===== src/Worker/Harness/Executed.antt =====
-- That `execute_task` (crates/vsm-worker/src/harness.rs) ends with a result, whatever the model answers.
use vsm_agent_kernel.Base.{ℕ, ◌≡◌, Bool, true, false, Option, none, some, List, string_key}
use vsm_agent_kernel.Base.Float.{Float}
use vsm_agent_kernel.Base.Json.{Json}
use vsm_agent_kernel.Base.Results.{Result, ok, err}
use vsm_agent_kernel.Core.Envelope.{MessageEnvelope}
use vsm_agent_kernel.Core.Genome.{get_node, ancestor_ids}
use vsm_agent_kernel.Core.Id.{NodeId, GenomeId}
use vsm_agent_kernel.Core.Node.{ViableNode}
use vsm_agent_kernel.Core.Task.{TaskPacket, TaskResult}
use vsm_agent_kernel.Core.Trace.{TaskTrace, started}
use vsm_agent_kernel.Worker.Error
use vsm_agent_kernel.Worker.Error.{WorkerError}
use vsm_agent_kernel.Worker.Harness.{
  Services, WorkerHarness, M, ◌>>=◌, ◌>>◌, pure, question, question_lookup, execution, conclude,
  finish, publish_result, publish_if, deliver, execute_at, execute_task,
}
use vsm_agent_kernel.Worker.Harness.Results.{IsOf, finish-IsOf, conclude-execution}

-- A step that returns a value with the property.
abbrev pub EndsAt : {S A : Type 0} → (A → Type 0) → Option (Result WorkerError A × S) → Type 0
EndsAt P none = ⊥
EndsAt P (some (err e, t)) = ⊥
EndsAt P (some (ok a, t)) = P a

pub Ends-map :
    {S A : Type 0} (P Q : A → Type 0) (r : Option (Result WorkerError A × S))
    → ((a : A) → P a → Q a)
    → EndsAt P r
    → EndsAt Q r
Ends-map P Q none k h = absurd h
Ends-map P Q (some (err x, t)) k h = absurd h
Ends-map P Q (some (ok a, t)) k h = k a h

pub bind_at :
    {S A B : Type 0} (P : A → Type 0) (Q : B → Type 0) (next : A → M S B)
    (r : Option (Result WorkerError A × S))
    → EndsAt P r
    → ((a : A) (t : S) → P a → EndsAt Q (next a t))
    → (s : S) → EndsAt Q (((λ (_ : S). r) >>= next) s)
bind_at P Q next none h k s = absurd h
bind_at P Q next (some (err x, t)) h k s = absurd h
bind_at P Q next (some (ok a, t)) h k s = k a t h

module _ {F V S : Type 0} ⦃f : Float F⦄ ⦃j : Json V⦄ (services : Services F V S)
    (harness : WorkerHarness) (fuel : ℕ) where
  -- The worker's node is in the genome at all times, with a walk to the root that ends, and the trace sink, the
  -- transport and the serialization of a result do not fail. Nothing is said of the model.
  pub record Reliable : Type 0 where
    pub node_of : S → ViableNode
    pub ancestors_of : S → List NodeId
    pub value_of : TaskResult → V
    pub present : (s : S) → get_node (services.read_genome s) harness.node_id ≡ ok (node_of s)
    pub rooted :
        (s : S)
        → ancestor_ids fuel (services.read_genome s) harness.node_id ≡ some (ok (ancestors_of s))
    pub records : (t : TaskTrace F) (s : S) → (services.record_trace t s).0 ≡ ok tt
    pub publishes : (e : MessageEnvelope V) (s : S) → (services.publish e s).0 ≡ ok tt
    pub serializes : (r : TaskResult) → services.to_value r ≡ ok (value_of r)

  module _ (reliable : Reliable) where
    publish_result-Ends :
        (result : TaskResult) (incoming : MessageEnvelope V) (parent_id : Option NodeId) (s : S)
        → EndsAt (λ _. Unit {0}) (publish_result services harness result incoming parent_id s)
    unfolding publish_result
    publish_result-Ends result incoming parent_id s =
        simp (reliable.serializes, reliable.publishes) tt

    publish_if-Ends :
        (test : Bool) (result : TaskResult) (incoming : MessageEnvelope V)
        (parent_id : Option NodeId) (s : S)
        → EndsAt (λ _. Unit {0}) (publish_if services harness test result incoming parent_id s)
    publish_if-Ends true result incoming parent_id s =
        publish_result-Ends result incoming parent_id s
    publish_if-Ends false result incoming parent_id s = tt

    deliver-Ends :
        (P : TaskResult → Type 0) (incoming : MessageEnvelope V) (parent_id : Option NodeId)
        (report : TaskResult × TaskTrace F) (s : S)
        → P report.0
        → EndsAt P (deliver services harness incoming parent_id report s)
    unfolding deliver
    deliver-Ends P incoming parent_id (result, trace) s h =
        let recorded : EndsAt (λ _. Unit {0})
            (question Error.trace_sink (services.record_trace trace) s) =
          simp reliable.records tt in
        bind_at (λ _. Unit {0}) P
          (λ _.
            publish_if services harness harness.config.publish_results result incoming parent_id
            >> pure result)
          (question Error.trace_sink (services.record_trace trace) s) recorded
          (λ _ t _.
            bind_at (λ _. Unit {0}) P (λ _. pure result)
              (publish_if services harness harness.config.publish_results result incoming parent_id
                t)
              (publish_if-Ends harness.config.publish_results result incoming parent_id t)
              (λ _ _ _. h) t)
          s

    execute_at-Ends :
        (task : TaskPacket) (incoming : MessageEnvelope V) (genome_id : GenomeId)
        (node : ViableNode) (ancestors : List NodeId) (s : S)
        → EndsAt
            (IsOf task.id harness.node_id)
            (execute_at services harness task incoming genome_id node ancestors s)
    unfolding execute_at
    execute_at-Ends task incoming genome_id node ancestors s =
        let (trace_id, s1) = services.draw_id s in
        let (trace_time, s2) = services.now s1 in
        let (started_at, s3) = services.now s2 in
        let (outcome, s4) = execution services harness node task s3 in
        let (completed_at, s5) = services.now s4 in
        let trace : TaskTrace F =
          record (started (f.literal 0 1) trace_id trace_time task.id genome_id harness.node_id) {
            responsible_ancestor_ids = ancestors;
          } in
        let concluded = conclude services harness task trace outcome in
        deliver-Ends (IsOf task.id harness.node_id) incoming node.parent_id
          (finish services harness task incoming started_at completed_at concluded) s5
          (finish-IsOf services harness task incoming started_at completed_at concluded
            (conclude-execution services harness task trace node s3))

    pub execute_task-Ends :
        (task : TaskPacket) (incoming : MessageEnvelope V) (s : S)
        → EndsAt (IsOf task.id harness.node_id) (execute_task services harness fuel task incoming s)
    unfolding execute_task
    execute_task-Ends task incoming s =
        let genome = services.read_genome s in
        let found : EndsAt (λ _. Unit {0})
            (question_lookup (some (get_node genome harness.node_id)) s) =
          simp reliable.present tt in
        let walked : (t : S)
            → EndsAt (λ _. Unit {0})
                (question_lookup (ancestor_ids fuel genome harness.node_id) t) =
          λ t. simp reliable.rooted tt in
        bind_at (λ _. Unit {0}) (IsOf task.id harness.node_id)
          (λ node. question_lookup (ancestor_ids fuel genome harness.node_id) >>= λ ancestors.
            execute_at services harness task incoming genome.id node ancestors)
          (question_lookup (some (get_node genome harness.node_id)) s) found
          (λ node t _.
            bind_at (λ _. Unit {0}) (IsOf task.id harness.node_id)
              (execute_at services harness task incoming genome.id node)
              (question_lookup (ancestor_ids fuel genome harness.node_id) t) (walked t)
              (λ ancestors u _. execute_at-Ends task incoming genome.id node ancestors u) t)
          s
