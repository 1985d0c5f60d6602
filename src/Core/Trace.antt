-- ===== src/Core/Trace.antt =====
-- crates/vsm-core/src/trace.rs: the trace of a task. `F` stands for `f64`, whose zero and sum are
-- arguments; a time (`DateTime<Utc>`) is its number of ticks, and `Utc::now()` an argument `now`.
use vsm_agent_kernel.Base.{ℕ, ◌+◌, String, Bool, Option, none, List, [], ◌∷◌}
use vsm_agent_kernel.Base.Float.{Float}
use vsm_agent_kernel.Base.TreeMap.{TreeMap}
use vsm_agent_kernel.Base.Int.{ℤ, pos}
use vsm_agent_kernel.Core.Id.{NodeId, GenomeId, TaskId, SuggestionId, TraceId}

pub record DelayedTraceAdjustment (F : Type 0) : Type 0 where
  pub created_at : ℕ
  pub source : String
  pub reason : String
  pub delta_score : F

pub record TaskTrace (F : Type 0) : Type 0 where
  pub id : TraceId
  pub task_id : TaskId
  pub genome_id : GenomeId
  pub assigned_node_id : NodeId
  pub responsible_ancestor_ids : List NodeId
  pub related_suggestion_ids : List SuggestionId
  pub started_at : ℕ
  pub completed_at : Option ℕ
  pub input_tokens : ℕ
  pub output_tokens : ℕ
  pub tool_calls : ℕ
  pub latency_ms : ℕ
  pub files_touched : List String
  pub lines_added : ℤ
  pub lines_deleted : ℤ
  pub tests_run : List String
  pub tests_passed : Option Bool
  pub review_passed : Option Bool
  pub merged : Option Bool
  pub reverted : Option Bool
  pub post_merge_regression : Option Bool
  pub human_override : Option Bool
  pub outcome_score : F
  pub delayed_adjustments : List (DelayedTraceAdjustment F)
  pub metadata : TreeMap String String

-- `TaskTrace::started`; the id is the one that `TraceId::new` draws.
abbrev pub started : {F : Type 0} → F → TraceId → ℕ → TaskId → GenomeId → NodeId → TaskTrace F
started zero id now task_id genome_id assigned_node_id = record {
  id = id;
  task_id = task_id;
  genome_id = genome_id;
  assigned_node_id = assigned_node_id;
  responsible_ancestor_ids = [];
  related_suggestion_ids = [];
  started_at = now;
  completed_at = none;
  input_tokens = 0;
  output_tokens = 0;
  tool_calls = 0;
  latency_ms = 0;
  files_touched = [];
  lines_added = pos 0;
  lines_deleted = pos 0;
  tests_run = [];
  tests_passed = none;
  review_passed = none;
  merged = none;
  reverted = none;
  post_merge_regression = none;
  human_override = none;
  outcome_score = zero;
  delayed_adjustments = [];
  metadata = [];
}

-- `iter().map(|a| a.delta_score).sum()`, from the sum so far.
unfoldable pub sum_adjustments :
    {F : Type 0} ⦃f : Float F⦄ → F → List (DelayedTraceAdjustment F) → F
sum_adjustments total [] = total
sum_adjustments ⦃f⦄ total (a ∷ rest) = sum_adjustments (f.plus total a.delta_score) rest

unfoldable pub total_score : {F : Type 0} ⦃f : Float F⦄ → TaskTrace F → F
unfolding sum_adjustments
total_score ⦃f⦄ trace =
    f.plus trace.outcome_score (sum_adjustments f.empty_sum trace.delayed_adjustments)

unfoldable pub token_total : {F : Type 0} → TaskTrace F → ℕ
token_total trace = trace.input_tokens + trace.output_tokens
