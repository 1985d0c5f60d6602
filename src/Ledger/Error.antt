-- ===== src/Ledger/Error.antt =====
-- crates/vsm-ledger/src/error.rs.
use vsm_agent_kernel.Base.{String}

pub data LedgerError : Type 0 where
  storage serialization event_not_found trace_not_found : String → LedgerError
