-- ===== src/Controller/Resource/Epoch.antt =====
-- The budget of a requester for one epoch, and what recent decisions have used of it
-- (crates/vsm-controller/src/runtime.rs).
use vsm_agent_kernel.Base.{
  ℕ, ◌-◌, String, Bool, ◌&&◌, ◌||◌, Option, none, some, List, [], ◌∷◌, ◌++◌, string_key, ◌==◌,
  if◌then◌else◌,
}
use vsm_agent_kernel.Base.Decimal.{decimal, parse_u64, minimum}
use vsm_agent_kernel.Base.Entries.{unwrap_or}
use vsm_agent_kernel.Base.Json.{Json, and_then, or_else, number_field}
use vsm_agent_kernel.Base.Results.{Result, ok, err}
use vsm_agent_kernel.Base.TreeMap.{TreeMap, get, insert, option_map}
use vsm_agent_kernel.Core.Channel.{ChannelConfig, resource_bargaining}
use vsm_agent_kernel.Core.ChannelKey.{channel_key}
use vsm_agent_kernel.Core.Genome.{OrganizationalGenome}
use vsm_agent_kernel.Core.Id.{NodeId}
use vsm_agent_kernel.Controller.Error.{ControllerError, ledger}
use vsm_agent_kernel.Controller.Resource.Pressure.{is_text}
use vsm_agent_kernel.Controller.Trial.Operations.{saturating_add}
use vsm_agent_kernel.Ledger.Error.{LedgerError}
use vsm_agent_kernel.Ledger.Event.{LedgerEvent, EventFilter, other}

pub record ResourceEpochBudget : Type 0 where
  pub token_budget : Option ℕ
  pub message_budget : Option ℕ

pub record ResourceEpochAccounting : Type 0 where
  pub epoch_key : String
  pub token_budget : Option ℕ
  pub message_budget : Option ℕ
  pub allocated_tokens : ℕ
  pub allocation_count : ℕ

-- `-` stops at zero, as `saturating_sub` does.
unfoldable pub remaining_tokens : ResourceEpochAccounting → Option ℕ
remaining_tokens e = option_map (λ (budget : ℕ). budget - e.allocated_tokens) e.token_budget

unfoldable pub remaining_tokens_after : ResourceEpochAccounting → Option ℕ → Option ℕ
unfolding remaining_tokens
remaining_tokens_after e approved_tokens =
    option_map (λ (remaining : ℕ). remaining - unwrap_or 0 approved_tokens) (remaining_tokens e)

unfoldable pub remaining_messages : ResourceEpochAccounting → Option ℕ
remaining_messages e = option_map (λ (budget : ℕ). budget - e.allocation_count) e.message_budget

-- `channel.from.as_ref() == Some(node)`.
abbrev connects : ChannelConfig → NodeId → NodeId → Bool
connects channel from_id to_id = is_text from_id channel.from && is_text to_id channel.to

-- A channel between the two, in either direction, whose budgets count.
abbrev bargains : NodeId → NodeId → ChannelConfig → Bool
bargains controller_node_id requester_node_id channel =
    (channel.channel_type == resource_bargaining)
    && (connects channel controller_node_id requester_node_id
        || connects channel requester_node_id controller_node_id)

abbrev pub keep_some : Option ℕ → List ℕ
keep_some none = []
keep_some (some cap) = cap ∷ []

-- The loop over the channels, by the cap that it collects.
unfoldable pub channel_caps :
    (ChannelConfig → Option ℕ) → NodeId → NodeId → List ChannelConfig → List ℕ
channel_caps cap controller_node_id requester_node_id [] = []
channel_caps cap controller_node_id requester_node_id (channel ∷ channels) =
    (if bargains controller_node_id requester_node_id channel then keep_some (cap channel) else [])
    ++ channel_caps cap controller_node_id requester_node_id channels

unfoldable pub resource_epoch_budget : OrganizationalGenome → NodeId → NodeId → ResourceEpochBudget
unfolding channel_caps minimum
resource_epoch_budget genome controller_node_id requester_node_id = record {
  token_budget = minimum (
      channel_caps (λ channel. channel.max_token_budget_per_epoch) controller_node_id
        requester_node_id genome.channels);
  message_budget = minimum (
      channel_caps (λ channel. channel.max_messages_per_epoch) controller_node_id requester_node_id
        genome.channels);
}

abbrev pub resource_epoch_filter : NodeId → EventFilter
resource_epoch_filter controller_node_id = record {
  kinds = other "resource_allocation_decision" ∷ [];
  node_id = some controller_node_id;
  task_id = none;
  directive_id = none;
  correlation_id = none;
  since = none;
  limit = some 10000;
}

abbrev pub no_accounting : String → ResourceEpochBudget → ResourceEpochAccounting
no_accounting epoch_key budget = record {
  epoch_key = epoch_key;
  token_budget = budget.token_budget;
  message_budget = budget.message_budget;
  allocated_tokens = 0;
  allocation_count = 0;
}

module _ {V : Type 0} ⦃j : Json V⦄ where
  -- The tokens that the event of a decision tells.
  unfoldable pub event_tokens : LedgerEvent V → ℕ
  unfolding parse_u64
  event_tokens event = unwrap_or 0 (
      or_else (and_then (get "resource_epoch_approved_tokens" event.metadata) parse_u64)
        (number_field event.payload "approved_tokens"))

  abbrev pub counts_for : String → String → LedgerEvent V → Bool
  counts_for epoch_key requested_by event =
      is_text epoch_key (get "resource_epoch_key" event.metadata)
      && is_text requested_by (get "requested_by" event.metadata)

  abbrev pub count_event : LedgerEvent V → ResourceEpochAccounting → ResourceEpochAccounting
  count_event event e = record e {
    allocation_count = saturating_add e.allocation_count 1;
    allocated_tokens = saturating_add e.allocated_tokens (event_tokens event);
  }

  unfoldable pub count_events :
      NodeId → List (LedgerEvent V) → ResourceEpochAccounting → ResourceEpochAccounting
  unfolding event_tokens saturating_add
  count_events requested_by [] e = e
  count_events requested_by (event ∷ events) e =
      count_events requested_by events
        (if counts_for e.epoch_key requested_by event then count_event event e else e)

  -- `recent_events` is the ledger's.
  unfoldable pub resource_epoch_accounting :
      (EventFilter → Result LedgerError (List (LedgerEvent V)))
      → NodeId
      → NodeId
      → String
      → ResourceEpochBudget
      → Result ControllerError ResourceEpochAccounting
  unfolding count_events
  resource_epoch_accounting recent_events controller_node_id requested_by epoch_key budget =
      elim (recent_events (resource_epoch_filter controller_node_id)) [
        | err e ↦ err (ledger e)
        | ok events ↦ ok (count_events requested_by events (no_accounting epoch_key budget))
      ]

-- `metadata.insert` of a number that may be absent.
unfoldable pub insert_number : String → Option ℕ → TreeMap String String → TreeMap String String
unfolding decimal
insert_number key none metadata = metadata
insert_number key (some n) metadata = insert key (decimal n) metadata

unfoldable pub add_resource_epoch_metadata :
    TreeMap String String → ResourceEpochAccounting → Option ℕ → TreeMap String String
unfolding remaining_tokens remaining_tokens_after remaining_messages insert_number decimal
    saturating_add insert
add_resource_epoch_metadata metadata epoch approved_tokens =
    let keyed = insert "resource_epoch_key" epoch.epoch_key metadata in
    let before =
      insert "resource_epoch_allocation_count_before" (decimal epoch.allocation_count) keyed in
    let after =
      insert "resource_epoch_allocation_count_after"
        (decimal (saturating_add epoch.allocation_count 1)) before in
    let allocated =
      insert "resource_epoch_allocated_before_tokens" (decimal epoch.allocated_tokens) after in
    let approved =
      insert "resource_epoch_approved_tokens" (decimal (unwrap_or 0 approved_tokens)) allocated in
    let budgeted = insert_number "resource_epoch_budget_tokens" epoch.token_budget approved in
    let remaining =
      insert_number "resource_epoch_remaining_before_tokens" (remaining_tokens epoch) budgeted in
    let left =
      insert_number "resource_epoch_remaining_after_tokens"
        (remaining_tokens_after epoch approved_tokens) remaining in
    let messages = insert_number "resource_epoch_message_budget" epoch.message_budget left in
    let messages_before =
      insert_number "resource_epoch_remaining_messages_before" (remaining_messages epoch)
        messages in
    insert_number "resource_epoch_remaining_messages_after"
      (option_map (λ (remaining : ℕ). remaining - 1) (remaining_messages epoch)) messages_before
