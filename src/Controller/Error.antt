-- ===== src/Controller/Error.antt =====
-- crates/vsm-controller/src/error.rs. A `serde_json::Error` is its message.
use vsm_agent_kernel.Base.{String}
use vsm_agent_kernel.Core.Id.{NodeId, SuggestionId}
use vsm_agent_kernel.Core.Genome.{GenomeError}
use vsm_agent_kernel.Core.Patch.{PatchError}
use vsm_agent_kernel.Core.Transport.{TransportError}
use vsm_agent_kernel.Ledger.Error.{LedgerError}

pub data ControllerError : Type 0 where
  transport : TransportError → ControllerError
  ledger : LedgerError → ControllerError
  serialization : String → ControllerError
  genome : GenomeError → ControllerError
  patch : PatchError → ControllerError
  not_metasystem : NodeId → ControllerError
  no_routeable_child : NodeId → String → ControllerError
  unsupported_payload : String → ControllerError
  trial_already_active : SuggestionId → ControllerError
  no_active_trial : ControllerError
  trial_not_queued : SuggestionId → ControllerError
