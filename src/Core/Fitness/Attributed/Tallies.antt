-- ===== src/Core/Fitness/Attributed/Tallies.antt =====
-- The counts of tasks that `summarize_attributed_fitness` (crates/vsm-core/src/fitness.rs) ends with.
use vsm_agent_kernel.Base.{
  ℕ, ◌+◌, ◌≡◌, refl, Bool, false, not, ◌&&◌, ◌||◌, Option, none, some, List, [], ◌∷◌, contains,
  length, retain, string_key, ◌==◌, arith, if◌then◌else◌,
}
use vsm_agent_kernel.Base.Entries.{unwrap_or, update_entry, get-update_entry, get-map_entries}
use vsm_agent_kernel.Base.Float.{Float, naught}
use vsm_agent_kernel.Base.TreeMap.{TreeMap, get, option_map}
use vsm_agent_kernel.Core.Id.{NodeId}
use vsm_agent_kernel.Core.Trace.{TaskTrace}
use vsm_agent_kernel.Core.Fitness.{
  FitnessWeights, AttributionWeights, AttributedFitnessSummary, ancestor_weight,
}
use vsm_agent_kernel.Core.Fitness.Attributed.{
  empty_attributed_summary, credit_direct, credit_ancestor, credit_ancestors, credit_traces,
  close_attributed, summarize_attributed_fitness,
}

-- The three counts of a node, zero without an entry.
pub record Tally : Type 0 where
  pub direct : ℕ
  pub descendant : ℕ
  pub subtree : ℕ

abbrev pub no_tasks : Tally
no_tasks = record { direct = 0; descendant = 0; subtree = 0 }

abbrev pub bit : Bool → ℕ
bit b = if b then 1 else 0

abbrev pub tally_add : Tally → Bool → Bool → Tally
tally_add t direct descendant = record {
  direct = t.direct + bit direct;
  descendant = t.descendant + bit descendant;
  subtree = t.subtree + bit direct + bit descendant;
}

module _ {F : Type 0} where
  abbrev pub tally_of : Option (AttributedFitnessSummary F) → Tally
  tally_of none = no_tasks
  tally_of (some s) = record {
    direct = s.direct_task_count;
    descendant = s.descendant_task_count;
    subtree = s.subtree_task_count;
  }

  pub tally_of-default :
      (node_id : NodeId) (default : AttributedFitnessSummary F)
      → tally_of (some default) ≡ no_tasks
      → (o : Option (AttributedFitnessSummary F))
      → tally_of (some (unwrap_or default o)) ≡ tally_of o
  tally_of-default node_id default h none = h
  tally_of-default node_id default h (some s) = refl

module _ {F : Type 0} ⦃f : Float F⦄ (attribution : AttributionWeights F) (node_id : NodeId) where
  -- Whether the first occurrence of the node among the ancestors has a weight that is not 0.0.
  unfoldable pub credited_at : ℕ → List NodeId → Bool
  credited_at depth [] = false
  credited_at depth (ancestor_id ∷ rest) =
      let further = credited_at (depth + 1) rest in
      if ancestor_id == node_id
      then not (f.equal (ancestor_weight attribution depth) naught)
      else further

  abbrev pub is_direct : TaskTrace F → Bool
  is_direct trace = trace.assigned_node_id == node_id

  abbrev pub is_credited : TaskTrace F → Bool
  is_credited trace =
      not (trace.assigned_node_id == node_id) && credited_at 0 trace.responsible_ancestor_ids

  -- The traces that are the node's own, and those of other nodes that count for it.
  abbrev pub direct_traces : List (TaskTrace F) → List (TaskTrace F)
  direct_traces = retain is_direct

  abbrev pub credited_traces : List (TaskTrace F) → List (TaskTrace F)
  credited_traces = retain is_credited

  abbrev tally_traces : Tally → List (TaskTrace F) → Tally
  tally_traces t traces = record {
    direct = t.direct + length (direct_traces traces);
    descendant = t.descendant + length (credited_traces traces);
    subtree = t.subtree + length (direct_traces traces) + length (credited_traces traces);
  }

  module _ (weights : FitnessWeights F) where
    tally-credit_direct :
        (trace : TaskTrace F) (m : TreeMap NodeId (AttributedFitnessSummary F))
        → tally_of (
            get node_id (
              update_entry trace.assigned_node_id
                (empty_attributed_summary trace.assigned_node_id)
                (credit_direct weights attribution trace)
                m))
          ≡ tally_add (tally_of (get node_id m)) (is_direct trace) false
    tally-credit_direct trace m = ground (
      arith,
      string_key.beq_iff trace.assigned_node_id node_id,
      get-update_entry trace.assigned_node_id node_id
          (empty_attributed_summary trace.assigned_node_id)
          (credit_direct weights attribution trace) m,
    )

    tally-credit_ancestor :
        (trace : TaskTrace F) (weight : F) (ancestor_id : NodeId)
        (m : TreeMap NodeId (AttributedFitnessSummary F))
        → tally_of (
            get node_id (
              update_entry ancestor_id
                (empty_attributed_summary ancestor_id)
                (credit_ancestor weights weight trace)
                m))
          ≡ tally_add (tally_of (get node_id m)) false (ancestor_id == node_id)
    tally-credit_ancestor trace weight ancestor_id m = ground (
      arith,
      string_key.beq_iff ancestor_id node_id,
      get-update_entry ancestor_id node_id (empty_attributed_summary ancestor_id)
          (credit_ancestor weights weight trace) m,
    )

    tally-credit_ancestors :
        (trace : TaskTrace F) (depth : ℕ) (seen ancestors : List NodeId)
        (m : TreeMap NodeId (AttributedFitnessSummary F))
        → tally_of (get node_id (credit_ancestors weights attribution trace depth seen ancestors m))
          ≡ tally_add (tally_of (get node_id m)) false (
              not (trace.assigned_node_id == node_id)
              && not (contains seen node_id)
              && credited_at depth ancestors)
    unfolding credit_ancestors credited_at contains
    tally-credit_ancestors trace depth seen [] m = ground arith
    tally-credit_ancestors trace depth seen (ancestor_id ∷ rest) m =
        let skipped = (ancestor_id == trace.assigned_node_id) || contains seen ancestor_id in
        let weight = ancestor_weight attribution depth in
        ground (
          arith,
          string_key.beq_iff ancestor_id node_id,
          string_key.beq_iff ancestor_id trace.assigned_node_id,
          string_key.beq_iff trace.assigned_node_id node_id,
          tally-credit_ancestor trace weight ancestor_id m,
          tally-credit_ancestors trace (depth + 1) (if skipped then seen else ancestor_id ∷ seen)
              rest
              (if skipped || f.equal weight naught
                then m
                else update_entry ancestor_id (empty_attributed_summary ancestor_id)
                    (credit_ancestor weights weight trace) m),
        )

    tally-credit_traces :
        (traces : List (TaskTrace F)) (m : TreeMap NodeId (AttributedFitnessSummary F))
        → tally_of (get node_id (credit_traces weights attribution traces m))
          ≡ tally_traces (tally_of (get node_id m)) traces
    unfolding credit_traces retain
    tally-credit_traces [] m = ground arith
    tally-credit_traces (trace ∷ traces) m =
        let own =
          update_entry trace.assigned_node_id (empty_attributed_summary trace.assigned_node_id)
            (credit_direct weights attribution trace) m in
        ground (
          arith,
          tally-credit_direct trace m,
          tally-credit_ancestors trace 0 [] trace.responsible_ancestor_ids own,
          tally-credit_traces traces
              (credit_ancestors weights attribution trace 0 [] trace.responsible_ancestor_ids own),
        )

    tally-close_attributed :
        (complexity_by_node : TreeMap NodeId F) (o : Option (AttributedFitnessSummary F))
        → tally_of (option_map (close_attributed weights complexity_by_node node_id) o) ≡ tally_of o
    tally-close_attributed complexity_by_node none = refl
    tally-close_attributed complexity_by_node (some s) = refl

    -- In the attributed summaries a node's own traces are its direct tasks; a trace of another node is a
    -- descendant task of it exactly if the node is among the trace's ancestors and the weight of its first
    -- place there is not 0.0, and then once, however often the node is named; and the tasks of the subtree
    -- are both. A node without an entry has none of the three.
    pub tally-summarize_attributed_fitness :
        (complexity_by_node : TreeMap NodeId F) (traces : List (TaskTrace F))
        → tally_of (
            get node_id
              (summarize_attributed_fitness traces weights attribution complexity_by_node))
          ≡ record {
            direct = length (direct_traces traces);
            descendant = length (credited_traces traces);
            subtree = length (direct_traces traces) + length (credited_traces traces);
          }
    unfolding summarize_attributed_fitness get
    tally-summarize_attributed_fitness complexity_by_node traces =
        let m = credit_traces weights attribution traces [] in
        ground (
          arith,
          get-map_entries (close_attributed weights complexity_by_node) node_id m,
          tally-close_attributed complexity_by_node (get node_id m),
          tally-credit_traces traces [],
        )
