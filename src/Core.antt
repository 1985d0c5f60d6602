-- ===== src/Core.antt =====
-- The crate `vsm-core` (crates/vsm-core): the pure domain model.
pub mod Id
pub mod Capability
pub mod Channel
pub mod ChannelKey
pub mod Node
pub mod Genome
pub mod Patch
pub mod Fixtures
mod Examples
mod PatchExamples
mod FitnessExamples
pub mod Task
pub mod Trace
pub mod Suggestion
pub mod Envelope
pub mod Signals
pub mod Orders
pub mod Fitness
pub mod Transport
