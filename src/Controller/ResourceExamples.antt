-- ===== src/Controller/ResourceExamples.antt =====
-- Decisions on bargains at a concrete genome.
use vsm_agent_kernel.Base.{
  ℕ, String, ◌-◌, ◌≤◌, ◌≡◌, refl, true, none, some, [], ◌∷◌, any, string_key, arith,
}
use vsm_agent_kernel.Base.TreeMap.{get, insert, modify}
use vsm_agent_kernel.Core.Fixtures.{two, nat_float, text_json}
use vsm_agent_kernel.Core.Genome.{new, add_child}
use vsm_agent_kernel.Core.Orders.{ResourceBargain}
use vsm_agent_kernel.Controller.Resource.Allocation.{allocate_resource_bargain}
use vsm_agent_kernel.Controller.Resource.Allocation.Budgets.{
  Round, recorded, spend, approved_total, approved_total-le, count_event-recorded,
}
use vsm_agent_kernel.Controller.Resource.Allocation.Policy.{
  Approval, allocate_resource_bargain-WithinPolicy,
}
use vsm_agent_kernel.Controller.Resource.Allocation.Statuses.{
  Answers, allocate_resource_bargain-Answers,
}
use vsm_agent_kernel.Controller.Resource.Epoch.{ResourceEpochAccounting, counts_for, count_event}
use vsm_agent_kernel.Controller.Resource.Pressure.{no_environment, no_coordination}
use vsm_agent_kernel.Ledger.Event.{LedgerEvent, other}

abbrev bargain : ResourceBargain
bargain = record {
  requested_by = "c";
  task_id = some "t";
  proposed_task = none;
  requested_tokens = some 100;
  requested_tool_permissions = "shell" ∷ [];
  requested_context_refs = [];
  justification = "";
}

abbrev epoch : ResourceEpochAccounting
epoch = record {
  epoch_key = "e";
  token_budget = some 60;
  message_budget = none;
  allocated_tokens = 20;
  allocation_count = 1;
}

-- What the epoch has left.
capped :
    (allocate_resource_bargain {F = ℕ} 0 two.genome "r" bargain none none
      (some epoch)).approved_tokens
    ≡ some 40
unfolding allocate_resource_bargain add_child new insert modify get any
capped = refl

allocate_resource_bargain-WithinPolicy_example :
    Approval {F = ℕ} none none (some epoch) two.genome "r" bargain 40
allocate_resource_bargain-WithinPolicy_example =
    allocate_resource_bargain-WithinPolicy none none (some epoch) 0 two.genome "r" bargain 40 capped

allocate_resource_bargain-Answers_example :
    Answers bargain
      (allocate_resource_bargain {F = ℕ} 0 two.genome "r" bargain none none (some epoch))
allocate_resource_bargain-Answers_example =
    allocate_resource_bargain-Answers none none (some epoch) 0 two.genome "r" bargain

abbrev round : Round ℕ
round = record {
  now = 0;
  genome = two.genome;
  bargain = bargain;
  environment = no_environment;
  coordination = no_coordination;
}

approved_total-le_example : approved_total "r" epoch (round ∷ round ∷ []) ≤ 60 - 20
approved_total-le_example = approved_total-le "r" epoch (round ∷ round ∷ []) 60 refl (omega arith)

abbrev decision_event : LedgerEvent String
decision_event = record {
  id = "i";
  kind = other "resource_allocation_decision";
  created_at = 0;
  genome_id = none;
  node_id = some "r";
  task_id = none;
  directive_id = none;
  suggestion_id = none;
  correlation_id = none;
  payload = "";
  metadata = recorded [] "c" epoch (some 40);
}

count_event-recorded_example :
    (counts_for "e" "c" decision_event ≡ true)
    × (count_event decision_event epoch ≡ spend (some 40) epoch)
count_event-recorded_example =
    count_event-recorded decision_event [] "c" epoch epoch (some 40) refl refl refl (omega arith)
