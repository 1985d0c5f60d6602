-- ===== src/Runtime/Examples.antt =====
-- The transport's filter and the trials at concrete inputs.
use vsm_agent_kernel.Base.{
  ℕ, String, ◌≡◌, ◌↔◌, refl, true, false, ◌&&◌, none, some, [], ◌∷◌, string_key, ◌==◌, arith,
  is_empty, contains, if◌then◌else◌,
}
use vsm_agent_kernel.Base.Results.{Result}
use vsm_agent_kernel.Base.TreeMap.{get, is_some}
use vsm_agent_kernel.Core.Channel.{audit, normal}
use vsm_agent_kernel.Core.ChannelKey.{channel_key}
use vsm_agent_kernel.Core.Envelope.{MessageEnvelope}
use vsm_agent_kernel.Core.Fixtures.{uuid, two, two-Within}
use vsm_agent_kernel.Core.Patch.{PatchError, remove_subtree_patch}
use vsm_agent_kernel.Core.Patch.Shape.{childless, growth}
use vsm_agent_kernel.Core.Suggestion.{GeneSuggestion, new_suggestion, algedonic_signal}
use vsm_agent_kernel.Core.Transport.{Subscription}
use vsm_agent_kernel.Runtime.Subscriptions.{matches_subscription, matches_subscription_iff}
use vsm_agent_kernel.Runtime.Trial.{
  MutationTrial, TrialLedger, from_suggestion, finish_trial, restore,
}
use vsm_agent_kernel.Runtime.Trial.Candidate.{
  IsTrialOf, Outcome, from_suggestion-IsTrialOf, finish_trial_moves,
}

abbrev audits : Subscription
audits = record {
  channel_types = audit ∷ [];
  target_node_id = some "n";
  queue_name = none;
  durable = false;
}

abbrev request : MessageEnvelope String
request = record {
  id = "m";
  channel_type = audit;
  source_node_id = none;
  target_node_id = some "n";
  correlation_id = none;
  causation_id = none;
  priority = normal;
  created_at = 3;
  payload_type = "vsm.audit_request";
  payload = "{}";
  trace = [];
  metadata = [];
}

matches_subscription_iff_example : (matches_subscription audits request ≡ true) ↔ (
    ((is_empty audits.channel_types ≡ false)
      → contains audits.channel_types request.channel_type ≡ true)
    × ((t : String) → audits.target_node_id ≡ some t → request.target_node_id ≡ some t))
matches_subscription_iff_example = matches_subscription_iff audits request

abbrev smaller : GeneSuggestion
smaller = new_suggestion "s" "r" "r" algedonic_signal (remove_subtree_patch "c") "smaller"

smaller_childless : childless smaller.patch ≡ true
unfolding childless
smaller_childless = refl

smaller_growth : growth smaller.patch ≡ 0
unfolding growth
smaller_growth = refl

from_suggestion-IsTrialOf_example :
    (r : Result PatchError (MutationTrial ℕ)) × (n : ℕ) × (from_suggestion uuid 2 0 two.genome
        smaller
      ≡ some (r, n))
    × Outcome (IsTrialOf two.genome two-Within.0.height smaller) r
from_suggestion-IsTrialOf_example =
    from_suggestion-IsTrialOf uuid 2 0 two.genome smaller two-Within.0 smaller_childless
      (omega (arith, two-Within.1, smaller_growth))

abbrev running : TrialLedger ℕ
running = record { active = ("s", restore smaller "g" two.genome []) ∷ []; archived = [] }

abbrev trial_s : String
trial_s = "s"

finish_trial_moves_example :
    ((finish_trial running trial_s).0 ≡ get trial_s running.active)
    × (get "s" (finish_trial running trial_s).1.active
        ≡ (if trial_s == "s" then none else get "s" running.active))
    × (get "s" (finish_trial running trial_s).1.archived ≡ (
        if (trial_s == "s") && is_some (get trial_s running.active)
        then get trial_s running.active
        else get "s" running.archived))
finish_trial_moves_example = finish_trial_moves running trial_s "s"
