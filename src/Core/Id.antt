-- ===== src/Core/Id.antt =====
-- crates/vsm-core/src/id.rs. Each id type is a newtype of `String`; the model writes the string.
-- `Uuid::new_v4` is a parameter of the operations that call it: a run draws its ids from a stream
-- `uuid : ℕ → String`, and counts in the state how many it has drawn.
use vsm_agent_kernel.Base.{String}

abbrev pub NodeId : Type 0
NodeId = String

abbrev pub GenomeId : Type 0
GenomeId = String

abbrev pub TaskId : Type 0
TaskId = String

abbrev pub DirectiveId : Type 0
DirectiveId = String

abbrev pub SuggestionId : Type 0
SuggestionId = String

abbrev pub TraceId : Type 0
TraceId = String

abbrev pub ChannelId : Type 0
ChannelId = String
