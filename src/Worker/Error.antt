-- ===== src/Worker/Error.antt =====
-- crates/vsm-worker/src/error.rs. A `serde_json::Error` is its message.
use vsm_agent_kernel.Base.{String}
use vsm_agent_kernel.Core.Id.{NodeId}
use vsm_agent_kernel.Core.Genome.{GenomeError}
use vsm_agent_kernel.Core.Transport.{TransportError}

pub data ModelProviderError : Type 0 where
  missing_config request invalid_response : String → ModelProviderError

pub data TraceSinkError : Type 0 where
  operation : String → TraceSinkError

pub data WorkerError : Type 0 where
  transport : TransportError → WorkerError
  model : ModelProviderError → WorkerError
  trace_sink : TraceSinkError → WorkerError
  serialization : String → WorkerError
  genome : GenomeError → WorkerError
  not_executable_leaf : NodeId → WorkerError
  capability_denied : NodeId → String → WorkerError
