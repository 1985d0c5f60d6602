-- ===== src/Controller/Evolution/Retirement.antt =====
-- The retirement of a child with low fitness (crates/vsm-controller/src/evolution.rs, `retirement_suggestion`). `F`
-- stands for `f64`, and the text of a float with three decimals is the argument `three_decimals`.
use Prim.Native.String.{◌++◌ as append_text}
use vsm_agent_kernel.Base.{
  ℕ, ◌+◌, String, not, Option, none, some, List, [], ◌∷◌, map, length, retain, contains, string_key,
  leb, if◌then◌else◌,
}
use vsm_agent_kernel.Base.Decimal.{decimal}
use vsm_agent_kernel.Base.Entries.{update_entry}
use vsm_agent_kernel.Base.Float.{Float, naught}
use vsm_agent_kernel.Base.TreeMap.{TreeMap, get}
use vsm_agent_kernel.Core.Id.{NodeId, SuggestionId}
use vsm_agent_kernel.Core.Fitness.{default_weights}
use vsm_agent_kernel.Core.Fitness.Score.{score_trace}
use vsm_agent_kernel.Core.Genome.{OrganizationalGenome}
use vsm_agent_kernel.Core.Node.{ViableNode, retired}
use vsm_agent_kernel.Core.Patch.{set_node_status}
use vsm_agent_kernel.Core.Suggestion.{GeneSuggestion}
use vsm_agent_kernel.Core.Trace.{TaskTrace}
use vsm_agent_kernel.Controller.Router.{is_retired}
use vsm_agent_kernel.Controller.Evolution.{EvolutionPolicy, bounded_suggestion}

-- `filter_map` over the children that the genome has, and the filter of their status.
unfoldable pub active_children : OrganizationalGenome → List NodeId → List ViableNode
unfolding get is_retired
active_children champion [] = []
active_children champion (id ∷ ids) =
    let rest = active_children champion ids in
    elim (get id champion.nodes) [
      | none ↦ rest
      | some child ↦ if is_retired child.status then rest else child ∷ rest
    ]

-- A child with the number of its traces and the average of their scores.
pub record ChildScore (F : Type 0) : Type 0 where
  pub child_id : NodeId
  pub count : ℕ
  pub average : F

module _ {F : Type 0} ⦃f : Float F⦄ where
  unfoldable pub child_scores :
      List NodeId → List (TaskTrace F) → TreeMap NodeId (ℕ × F) → TreeMap NodeId (ℕ × F)
  unfolding contains update_entry score_trace
  child_scores child_ids [] scores = scores
  child_scores child_ids (trace ∷ traces) scores = child_scores child_ids traces (
      if not (contains child_ids trace.assigned_node_id)
      then scores
      else update_entry trace.assigned_node_id (0, naught)
          (λ e. (e.0 + 1, f.plus e.1 (score_trace trace default_weights))) scores)

  abbrev pub child_score : NodeId × (ℕ × F) → ChildScore F
  child_score entry = record {
    child_id = entry.0;
    count = entry.1.0;
    average = f.divide entry.1.1 (f.of_nat entry.1.0);
  }

  -- `min_by`: the first of those that none is below.
  unfoldable pub worst_from : ChildScore F → List (ChildScore F) → ChildScore F
  worst_from worst [] = worst
  worst_from worst (c ∷ cs) = worst_from (if f.less c.average worst.average then c else worst) cs

  unfoldable pub worst_of : List (ChildScore F) → Option (ChildScore F)
  unfolding worst_from
  worst_of [] = none
  worst_of (c ∷ cs) = some (worst_from c cs)

  module _ (uuid : ℕ → String) (three_decimals : F → String) (controller_node_id : NodeId)
      (generation : ℕ) (champion : OrganizationalGenome) (policy : EvolutionPolicy F) where
    unfoldable pub retire_child :
        Option (ChildScore F) → List SuggestionId → ℕ → Option GeneSuggestion × ℕ
    unfolding bounded_suggestion decimal
    retire_child none parent_trial_ids issued = (none, issued)
    retire_child (some worst) parent_trial_ids issued =
        if f.less policy.retirement_average_score_below worst.average
        then (none, issued)
        else bounded_suggestion uuid controller_node_id generation policy issued
            "retire_low_fitness_child" (set_node_status worst.child_id retired)
            "A child has sustained poor rolling direct fitness; trial retiring it from routing."
            (append_text "candidate_child=" worst.child_id
              ∷ append_text "child_task_count=" (decimal worst.count)
              ∷ append_text "child_average_score=" (three_decimals worst.average)
              ∷ [])
            parent_trial_ids

    unfoldable pub retirement_suggestion :
        List (TaskTrace F) → List SuggestionId → ℕ → Option GeneSuggestion × ℕ
    unfolding get active_children child_scores retain worst_of retire_child
    retirement_suggestion recent_traces parent_trial_ids issued =
        elim (get controller_node_id champion.nodes) [
          | none ↦ (none, issued)
          | some parent ↦
              let children = active_children champion parent.children in
              let scores = child_scores (map (λ child. child.id) children) recent_traces [] in
              let tried = retain (λ e. leb policy.retirement_min_tasks e.1.0) scores in
              if leb (length children) 1
              then (none, issued)
              else retire_child (worst_of (map child_score tried)) parent_trial_ids issued
        ]
