-- ===== src/Worker.antt =====
-- The crate `vsm-worker` (crates/vsm-worker): the harness of an operational leaf.
pub mod Error
pub mod Gate
pub mod Model
pub mod Prompt
pub mod Harness
mod Examples
mod HarnessExamples
