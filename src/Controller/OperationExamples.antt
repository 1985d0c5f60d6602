-- ===== src/Controller/OperationExamples.antt =====
-- Runs of the trial manager.
use vsm_agent_kernel.Base.{ℕ, ◌≡◌, refl, List, [], ◌∷◌, string_key}
use vsm_agent_kernel.Base.Results.{ok}
use vsm_agent_kernel.Core.Fitness.{default_weights}
use vsm_agent_kernel.Core.Fixtures.{two, nat_float}
use vsm_agent_kernel.Core.Patch.{remove_subtree_patch}
use vsm_agent_kernel.Core.Suggestion.{GeneSuggestion, new_suggestion, algedonic_signal}
use vsm_agent_kernel.Core.Trace.{TaskTrace, started}
use vsm_agent_kernel.Controller.Trial.Manager.{TrialManager}
use vsm_agent_kernel.Controller.Trial.Operations.{with_config}
use vsm_agent_kernel.Controller.Trial.Operations.Accounts.{Accounted, calls-Accounted}
use vsm_agent_kernel.Controller.Trial.Operations.Phases.{
  Call, start, trace, promote, prune, calls, phase, nexts, phase-calls,
}
use vsm_agent_kernel.Runtime.Trial.{restore}
use vsm_agent_kernel.Runtime.Trial.Evaluation.{default_config}

abbrev suggestion : GeneSuggestion
suggestion = new_suggestion "s" "r" "r" algedonic_signal (remove_subtree_patch "x") "smaller"

abbrev manager : TrialManager ℕ
manager = with_config default_config default_weights

abbrev related : TaskTrace ℕ
related = record (started 4 "x" 0 "t" "g" "c") { related_suggestion_ids = "s" ∷ [] }

abbrev run : List (Call ℕ)
run =
    start 1 2 3 "r" (ok (restore suggestion "g" two.genome []))
    ∷ trace related
    ∷ promote 4 5 "r"
    ∷ prune 6 7 "r"
    ∷ []

phase-calls_example : phase (calls manager run) ≡ nexts (phase manager) run
phase-calls_example = phase-calls manager run

calls-Accounted_example : Accounted (calls manager run) (calls manager run).active
calls-Accounted_example = calls-Accounted manager run tt (refl, (tt, (tt, (tt, tt))))
