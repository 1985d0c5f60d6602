-- ===== src/Ledger.antt =====
-- The crate `vsm-ledger` (crates/vsm-ledger): the empirical ledger.
pub mod Error
pub mod Snapshot
pub mod Trial
pub mod Archive
pub mod Event
pub mod EventKind
pub mod Limits
pub mod Memory
mod Examples
