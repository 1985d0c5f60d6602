-- ===== src/Core/Transport.antt =====
-- crates/vsm-core/src/transport.rs: subscriptions and transport errors.
use vsm_agent_kernel.Base.{String, Bool, Option, List}
use vsm_agent_kernel.Core.Channel.{VsmChannelType}

pub record Subscription : Type 0 where
  pub channel_types : List VsmChannelType
  pub target_node_id : Option String
  pub queue_name : Option String
  pub durable : Bool

pub data TransportError : Type 0 where
  serialization unavailable operation : String → TransportError
