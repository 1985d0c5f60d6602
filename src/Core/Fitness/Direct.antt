-- ===== src/Core/Fitness/Direct.antt =====
-- `summarize_direct_fitness` of crates/vsm-core/src/fitness.rs, against a description of each node's summary
-- by the traces that the node was assigned. `F` stands for `f64`.
use vsm_agent_kernel.Base.{
  ℕ, ◌+◌, ◌≡◌, refl, Bool, Option, none, some, List, [], ◌∷◌, length, is_empty, empty-nil, retain,
  string_key, ◌==◌, arith, if◌then◌else◌,
}
use vsm_agent_kernel.Base.Entries.{
  unwrap_or, update_entry, map_entries, get-update_entry, get-map_entries,
}
use vsm_agent_kernel.Base.Float.{Float, naught}
use vsm_agent_kernel.Base.TreeMap.{TreeMap, get}
use vsm_agent_kernel.Core.Id.{NodeId}
use vsm_agent_kernel.Core.Trace.{TaskTrace, token_total}
use vsm_agent_kernel.Core.Fitness.{FitnessWeights, FitnessSummary}
use vsm_agent_kernel.Core.Fitness.Score.{is_true, score_trace}

abbrev pub count_one : Option Bool → ℕ
count_one flag = if is_true flag then 1 else 0

module _ {F : Type 0} ⦃f : Float F⦄ where
  abbrev pub empty_summary : NodeId → FitnessSummary F
  empty_summary node_id = record {
    node_id = node_id;
    task_count = 0;
    merged_count = 0;
    reverted_count = 0;
    regression_count = 0;
    human_override_count = 0;
    tokens = 0;
    latency_ms = 0;
    raw_score = naught;
    complexity_penalty = naught;
    final_score = naught;
  }

  -- The writes to the entry of the trace's node.
  abbrev pub count_trace : FitnessWeights F → TaskTrace F → FitnessSummary F → FitnessSummary F
  count_trace weights trace entry = record entry {
    task_count = entry.task_count + 1;
    merged_count = entry.merged_count + count_one trace.merged;
    reverted_count = entry.reverted_count + count_one trace.reverted;
    regression_count = entry.regression_count + count_one trace.post_merge_regression;
    human_override_count = entry.human_override_count + count_one trace.human_override;
    tokens = entry.tokens + token_total trace;
    latency_ms = entry.latency_ms + trace.latency_ms;
    raw_score = f.plus entry.raw_score (score_trace trace weights);
  }

  unfoldable pub count_traces :
      FitnessWeights F
      → List (TaskTrace F)
      → TreeMap NodeId (FitnessSummary F)
      → TreeMap NodeId (FitnessSummary F)
  unfolding update_entry score_trace token_total
  count_traces weights [] summaries = summaries
  count_traces weights (trace ∷ traces) summaries = count_traces weights traces (
      update_entry trace.assigned_node_id (empty_summary trace.assigned_node_id)
        (count_trace weights trace) summaries)

  -- `.copied().unwrap_or(0.0)`, times the weight.
  abbrev pub complexity_penalty_of : FitnessWeights F → TreeMap NodeId F → NodeId → F
  complexity_penalty_of weights complexity_by_node node_id =
      f.times (unwrap_or naught (get node_id complexity_by_node)) weights.org_complexity_weight

  abbrev pub close_summary :
      FitnessWeights F → TreeMap NodeId F → NodeId → FitnessSummary F → FitnessSummary F
  close_summary weights complexity_by_node node_id summary =
      let penalty = complexity_penalty_of weights complexity_by_node node_id in
      record summary {
        complexity_penalty = penalty;
        final_score = f.minus summary.raw_score penalty;
      }

  unfoldable pub summarize_direct_fitness :
      List (TaskTrace F) → FitnessWeights F → TreeMap NodeId F → TreeMap NodeId (FitnessSummary F)
  unfolding count_traces map_entries get
  summarize_direct_fitness traces weights complexity_by_node =
      map_entries (close_summary weights complexity_by_node) (count_traces weights traces [])

  -- The traces that a node was assigned, in their order.
  abbrev pub assigned_to : NodeId → List (TaskTrace F) → List (TaskTrace F)
  assigned_to node_id = retain (λ trace. trace.assigned_node_id == node_id)

  unfoldable pub sum_of : (TaskTrace F → ℕ) → List (TaskTrace F) → ℕ
  sum_of measure [] = 0
  sum_of measure (trace ∷ traces) = measure trace + sum_of measure traces

  -- The scores added up from the first trace on.
  unfoldable pub add_scores : FitnessWeights F → F → List (TaskTrace F) → F
  add_scores weights total [] = total
  add_scores weights total (trace ∷ traces) =
      add_scores weights (f.plus total (score_trace trace weights)) traces

  -- What is added to a summary for all of a node's traces.
  abbrev pub extend : FitnessWeights F → List (TaskTrace F) → FitnessSummary F → FitnessSummary F
  extend weights own entry = record entry {
    task_count = entry.task_count + length own;
    merged_count = entry.merged_count + sum_of (λ t. count_one t.merged) own;
    reverted_count = entry.reverted_count + sum_of (λ t. count_one t.reverted) own;
    regression_count = entry.regression_count + sum_of (λ t. count_one t.post_merge_regression) own;
    human_override_count =
        entry.human_override_count + sum_of (λ t. count_one t.human_override) own;
    tokens = entry.tokens + sum_of token_total own;
    latency_ms = entry.latency_ms + sum_of (λ t. t.latency_ms) own;
    raw_score = add_scores weights entry.raw_score own;
  }

  extend-count_trace :
      (weights : FitnessWeights F) (trace : TaskTrace F) (own : List (TaskTrace F))
      (entry : FitnessSummary F)
      → extend weights (trace ∷ own) entry ≡ extend weights own (count_trace weights trace entry)
  unfolding sum_of add_scores
  extend-count_trace weights trace own entry = ground arith

  extend_none :
      (weights : FitnessWeights F) (entry : FitnessSummary F) → extend weights [] entry ≡ entry
  unfolding sum_of add_scores
  extend_none weights entry = ground arith

  get-count_traces :
      (weights : FitnessWeights F) (node_id : NodeId) (traces : List (TaskTrace F))
      (m : TreeMap NodeId (FitnessSummary F))
      → get node_id (count_traces weights traces m) ≡ (
          if is_empty (assigned_to node_id traces)
          then get node_id m
          else some (
              extend weights
                (assigned_to node_id traces)
                (unwrap_or (empty_summary node_id) (get node_id m))))
  unfolding count_traces retain
  get-count_traces weights node_id [] m = refl
  get-count_traces weights node_id (trace ∷ traces) m = ground (
    arith,
    string_key.beq_iff trace.assigned_node_id node_id,
    get-update_entry trace.assigned_node_id node_id (empty_summary trace.assigned_node_id)
        (count_trace weights trace) m,
    get-count_traces weights node_id traces (
        update_entry trace.assigned_node_id (empty_summary trace.assigned_node_id)
          (count_trace weights trace) m),
    empty-nil (assigned_to node_id traces),
    extend_none weights
        (count_trace weights trace (unwrap_or (empty_summary node_id) (get node_id m))),
    extend-count_trace weights trace (assigned_to node_id traces)
        (unwrap_or (empty_summary node_id) (get node_id m)),
  )

  -- The summary of a node, from the traces that it was assigned.
  abbrev pub own_summary :
      FitnessWeights F → TreeMap NodeId F → NodeId → List (TaskTrace F) → FitnessSummary F
  own_summary weights complexity_by_node node_id own = record {
    node_id = node_id;
    task_count = length own;
    merged_count = sum_of (λ t. count_one t.merged) own;
    reverted_count = sum_of (λ t. count_one t.reverted) own;
    regression_count = sum_of (λ t. count_one t.post_merge_regression) own;
    human_override_count = sum_of (λ t. count_one t.human_override) own;
    tokens = sum_of token_total own;
    latency_ms = sum_of (λ t. t.latency_ms) own;
    raw_score = add_scores weights naught own;
    complexity_penalty = complexity_penalty_of weights complexity_by_node node_id;
    final_score =
        f.minus (add_scores weights naught own)
          (complexity_penalty_of weights complexity_by_node node_id);
  }

  close-extend :
      (weights : FitnessWeights F) (complexity_by_node : TreeMap NodeId F) (node_id : NodeId)
      (own : List (TaskTrace F))
      → close_summary weights complexity_by_node node_id
          (extend weights own (empty_summary node_id))
        ≡ own_summary weights complexity_by_node node_id own
  close-extend weights complexity_by_node node_id own = ground arith

  -- The direct summaries have an entry for exactly the nodes that some trace was assigned to, and each entry
  -- is the summary of that node's own traces, whatever the other traces are: their number, the numbers of
  -- those that were merged, reverted, regressed or overridden, the sums of tokens and latency, the sum of
  -- their scores in the order of the traces, the node's complexity times its weight, and the difference.
  pub get-summarize_direct_fitness :
      (weights : FitnessWeights F) (complexity_by_node : TreeMap NodeId F)
      (traces : List (TaskTrace F)) (node_id : NodeId)
      → get node_id (summarize_direct_fitness traces weights complexity_by_node) ≡ (
          if is_empty (assigned_to node_id traces)
          then none
          else some (own_summary weights complexity_by_node node_id (assigned_to node_id traces)))
  unfolding summarize_direct_fitness
  get-summarize_direct_fitness weights complexity_by_node traces node_id = ground (
    arith,
    get-map_entries (close_summary weights complexity_by_node) node_id
        (count_traces weights traces []),
    get-count_traces weights node_id traces [],
    close-extend weights complexity_by_node node_id (assigned_to node_id traces),
  )
