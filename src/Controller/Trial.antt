-- ===== src/Controller/Trial.antt =====
-- crates/vsm-controller/src/trial.rs: how the controller admits tasks to a trial and routes them. `F` stands
-- for `f64`, a time is its number of ticks.
pub mod Exposure
pub mod Manager
pub mod Admission
pub mod Route
pub mod Lifecycle
pub mod Operations
