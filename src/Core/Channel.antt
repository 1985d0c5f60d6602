-- ===== src/Core/Channel.antt =====
-- crates/vsm-core/src/channel.rs: the VSM channels, and the bundle that a containment edge creates.
use vsm_agent_kernel.Base.{ℕ, ◌+◌, String, Bool, true, false, Option, none, some, List, [], ◌∷◌}
use vsm_agent_kernel.Base.TreeMap.{TreeMap}
use vsm_agent_kernel.Core.Id.{NodeId, ChannelId}

pub data VsmChannelType : Type 0 where
  resource_bargaining : VsmChannelType
  command : VsmChannelType
  system2_coordination : VsmChannelType
  audit : VsmChannelType
  three_four_homeostat : VsmChannelType
  management_to_operation : VsmChannelType
  operation_to_operation : VsmChannelType
  operation_to_environment : VsmChannelType
  future_probe_to_environment : VsmChannelType
  environment_to_environment : VsmChannelType
  algedonic : VsmChannelType

pub data ChannelPriority : Type 0 where
  low normal high critical interrupt : ChannelPriority

pub data ChannelDirection : Type 0 where
  parent_to_child child_to_parent sibling_to_sibling : ChannelDirection
  node_to_environment environment_to_node bidirectional : ChannelDirection

pub record ChannelConfig : Type 0 where
  pub id : ChannelId
  pub channel_type : VsmChannelType
  pub from : Option NodeId
  pub to : Option NodeId
  pub direction : ChannelDirection
  pub enabled : Bool
  pub required : Bool
  pub priority : ChannelPriority
  pub max_messages_per_epoch : Option ℕ
  pub max_token_budget_per_epoch : Option ℕ
  pub activation_predicate : Option String
  pub metadata : TreeMap String String

-- `ChannelConfig::new`; the id is the one that `ChannelId::new` draws.
abbrev pub new_channel : ChannelId → VsmChannelType → ChannelDirection → ChannelConfig
new_channel id channel_type direction = record {
  id = id;
  channel_type = channel_type;
  from = none;
  to = none;
  direction = direction;
  enabled = true;
  required = false;
  priority = normal;
  max_messages_per_epoch = none;
  max_token_budget_per_epoch = none;
  activation_predicate = none;
  metadata = [];
}

abbrev pub between : ChannelConfig → NodeId → NodeId → ChannelConfig
between channel from to = record channel { from = some from; to = some to }

pub record ParentChildChannelBundle : Type 0 where
  pub resource_bargaining : Option ChannelConfig
  pub command : Option ChannelConfig
  pub coordination_via_system2 : Option ChannelConfig
  pub audit_via_system3_star : Option ChannelConfig
  pub algedonic : Option ChannelConfig

-- `ParentChildChannelBundle::standard` draws five ids, the first one `uuid issued`.
abbrev pub standard : (ℕ → String) → ℕ → NodeId → NodeId → ParentChildChannelBundle
standard uuid issued parent child = record {
  resource_bargaining =
      some (between (new_channel (uuid issued) resource_bargaining bidirectional) parent child);
  command = some (between (new_channel (uuid (issued + 1)) command parent_to_child) parent child);
  coordination_via_system2 =
      some (
        between (new_channel (uuid (issued + 2)) system2_coordination parent_to_child) parent
          child);
  audit_via_system3_star =
      some (between (new_channel (uuid (issued + 3)) audit bidirectional) parent child);
  algedonic =
      some (between (new_channel (uuid (issued + 4)) algedonic child_to_parent) child parent);
}

-- `[..].into_iter().flatten()` over the fields of a bundle.
abbrev pub flatten_options : List (Option ChannelConfig) → List ChannelConfig
flatten_options [] = []
flatten_options (none ∷ os) = flatten_options os
flatten_options (some c ∷ os) = c ∷ flatten_options os

abbrev pub bundle_channels : ParentChildChannelBundle → List ChannelConfig
bundle_channels b = flatten_options (
    b.resource_bargaining ∷ b.command ∷ b.coordination_via_system2 ∷ b.audit_via_system3_star
    ∷ b.algedonic ∷ [])
