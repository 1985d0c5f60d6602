-- ===== src/Controller.antt =====
-- The crate `vsm-controller` (crates/vsm-controller): the runtime of a metasystem.
pub mod Error
pub mod Router
pub mod Trial
pub mod Resource
pub mod Evolution
mod Examples
mod TrialExamples
mod OperationExamples
mod ResourceExamples
mod EvolutionExamples
