-- ===== src/Runtime.antt =====
-- The crate `vsm-runtime` (crates/vsm-runtime): the in-memory transport and the trials of mutations.
pub mod Subscriptions
pub mod Trial
mod Examples
