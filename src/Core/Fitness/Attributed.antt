-- ===== src/Core/Fitness/Attributed.antt =====
-- `summarize_attributed_fitness` of crates/vsm-core/src/fitness.rs: a trace counts for its node and for the
-- node's ancestors. `F` stands for `f64`.
pub mod Tallies
use vsm_agent_kernel.Base.{
  ℕ, ◌+◌, Bool, not, ◌||◌, List, [], ◌∷◌, contains, string_key, ◌==◌, if◌then◌else◌,
}
use vsm_agent_kernel.Base.Entries.{update_entry, map_entries}
use vsm_agent_kernel.Base.Float.{Float, naught}
use vsm_agent_kernel.Base.TreeMap.{TreeMap}
use vsm_agent_kernel.Core.Id.{NodeId}
use vsm_agent_kernel.Core.Trace.{TaskTrace, token_total}
use vsm_agent_kernel.Core.Fitness.{
  FitnessWeights, AttributionWeights, AttributedFitnessSummary, ancestor_weight,
}
use vsm_agent_kernel.Core.Fitness.Score.{score_trace}
use vsm_agent_kernel.Core.Fitness.Direct.{complexity_penalty_of}

module _ {F : Type 0} ⦃f : Float F⦄ where
  abbrev pub empty_attributed_summary : NodeId → AttributedFitnessSummary F
  empty_attributed_summary node_id = record {
    node_id = node_id;
    direct_task_count = 0;
    descendant_task_count = 0;
    subtree_task_count = 0;
    direct_tokens = 0;
    subtree_tokens = 0;
    direct_latency_ms = 0;
    subtree_latency_ms = 0;
    attribution_weight_total = naught;
    direct_score = naught;
    descendant_score = naught;
    raw_score = naught;
    complexity_penalty = naught;
    final_score = naught;
  }

  -- The writes to the entry of the trace's node.
  abbrev pub credit_direct :
      FitnessWeights F
      → AttributionWeights F
      → TaskTrace F
      → AttributedFitnessSummary F
      → AttributedFitnessSummary F
  credit_direct weights attribution trace entry = record entry {
    direct_task_count = entry.direct_task_count + 1;
    subtree_task_count = entry.subtree_task_count + 1;
    direct_tokens = entry.direct_tokens + token_total trace;
    subtree_tokens = entry.subtree_tokens + token_total trace;
    direct_latency_ms = entry.direct_latency_ms + trace.latency_ms;
    subtree_latency_ms = entry.subtree_latency_ms + trace.latency_ms;
    attribution_weight_total = f.plus entry.attribution_weight_total attribution.direct_weight;
    direct_score =
        f.plus entry.direct_score (f.times (score_trace trace weights) attribution.direct_weight);
  }

  -- The writes to the entry of an ancestor with the given weight.
  abbrev pub credit_ancestor :
      FitnessWeights F → F → TaskTrace F → AttributedFitnessSummary F → AttributedFitnessSummary F
  credit_ancestor weights weight trace entry = record entry {
    descendant_task_count = entry.descendant_task_count + 1;
    subtree_task_count = entry.subtree_task_count + 1;
    subtree_tokens = entry.subtree_tokens + token_total trace;
    subtree_latency_ms = entry.subtree_latency_ms + trace.latency_ms;
    attribution_weight_total = f.plus entry.attribution_weight_total weight;
    descendant_score = f.plus entry.descendant_score (f.times (score_trace trace weights) weight);
  }

  -- The loop over the ancestors from the given depth on, with those seen so far.
  unfoldable pub credit_ancestors :
      FitnessWeights F
      → AttributionWeights F
      → TaskTrace F
      → ℕ
      → List NodeId
      → List NodeId
      → TreeMap NodeId (AttributedFitnessSummary F)
      → TreeMap NodeId (AttributedFitnessSummary F)
  unfolding contains update_entry ancestor_weight score_trace token_total
  credit_ancestors weights attribution trace depth seen [] summaries = summaries
  credit_ancestors weights attribution trace depth seen (ancestor_id ∷ rest) summaries =
      let skipped = (ancestor_id == trace.assigned_node_id) || contains seen ancestor_id in
      let weight = ancestor_weight attribution depth in
      credit_ancestors weights attribution trace (depth + 1)
        (if skipped then seen else ancestor_id ∷ seen) rest
        (if skipped || f.equal weight naught
          then summaries
          else update_entry ancestor_id (empty_attributed_summary ancestor_id)
              (credit_ancestor weights weight trace) summaries)

  unfoldable pub credit_traces :
      FitnessWeights F
      → AttributionWeights F
      → List (TaskTrace F)
      → TreeMap NodeId (AttributedFitnessSummary F)
      → TreeMap NodeId (AttributedFitnessSummary F)
  unfolding update_entry credit_ancestors score_trace token_total
  credit_traces weights attribution [] summaries = summaries
  credit_traces weights attribution (trace ∷ traces) summaries =
      credit_traces weights attribution traces (
        credit_ancestors weights attribution trace 0 [] trace.responsible_ancestor_ids (
          update_entry trace.assigned_node_id (empty_attributed_summary trace.assigned_node_id)
            (credit_direct weights attribution trace) summaries))

  abbrev pub close_attributed :
      FitnessWeights F
      → TreeMap NodeId F
      → NodeId
      → AttributedFitnessSummary F
      → AttributedFitnessSummary F
  close_attributed weights complexity_by_node node_id summary =
      let raw = f.plus summary.direct_score summary.descendant_score in
      let penalty = complexity_penalty_of weights complexity_by_node node_id in
      record summary {
        raw_score = raw;
        complexity_penalty = penalty;
        final_score = f.minus raw penalty;
      }

  unfoldable pub summarize_attributed_fitness :
      List (TaskTrace F)
      → FitnessWeights F
      → AttributionWeights F
      → TreeMap NodeId F
      → TreeMap NodeId (AttributedFitnessSummary F)
  unfolding credit_traces map_entries
  summarize_attributed_fitness traces weights attribution complexity_by_node =
      map_entries (close_attributed weights complexity_by_node)
        (credit_traces weights attribution traces [])
