-- ===== src/Core/FitnessExamples.antt =====
-- The summaries of the fitness for a few traces.
use vsm_agent_kernel.Base.{
  ℕ, ◌+◌, ◌≡◌, refl, none, some, List, [], ◌∷◌, retain, length, is_empty, string_key, if◌then◌else◌,
}
use vsm_agent_kernel.Base.TreeMap.{get}
use vsm_agent_kernel.Core.Fitness.{default_weights, default_attribution, ancestor_weight}
use vsm_agent_kernel.Core.Fitness.Attributed.{summarize_attributed_fitness}
use vsm_agent_kernel.Core.Fitness.Attributed.Tallies.{
  tally_of, direct_traces, credited_traces, credited_at, tally-summarize_attributed_fitness,
}
use vsm_agent_kernel.Core.Fitness.Direct.{
  summarize_direct_fitness, assigned_to, own_summary, get-summarize_direct_fitness,
}
use vsm_agent_kernel.Core.Fixtures.{nat_float}
use vsm_agent_kernel.Core.Trace.{TaskTrace, started}

abbrev by_coder : TaskTrace ℕ
by_coder = record (started 4 "x" 0 "t" "g" "c") { responsible_ancestor_ids = "r" ∷ "r" ∷ [] }

abbrev by_root : TaskTrace ℕ
by_root = started 2 "y" 0 "u" "g" "r"

abbrev traces : List (TaskTrace ℕ)
traces = by_coder ∷ by_root ∷ []

get-summarize_direct_fitness_example :
    get "c" (summarize_direct_fitness traces default_weights []) ≡ (
      if is_empty (assigned_to "c" traces)
      then none
      else some (own_summary default_weights [] "c" (assigned_to "c" traces)))
get-summarize_direct_fitness_example = get-summarize_direct_fitness default_weights [] traces "c"

tally-summarize_attributed_fitness_example :
    tally_of (get "r" (summarize_attributed_fitness traces default_weights default_attribution []))
    ≡ record {
      direct = length (direct_traces default_attribution "r" traces);
      descendant = length (credited_traces default_attribution "r" traces);
      subtree =
          length (direct_traces default_attribution "r" traces)
          + length (credited_traces default_attribution "r" traces);
    }
tally-summarize_attributed_fitness_example =
    tally-summarize_attributed_fitness default_attribution "r" default_weights [] traces

-- The root is named twice and counted once.
counted_once : length (credited_traces {F = ℕ} default_attribution "r" traces) ≡ 1
unfolding retain credited_at ancestor_weight
counted_once = refl
