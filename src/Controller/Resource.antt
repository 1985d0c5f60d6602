-- ===== src/Controller/Resource.antt =====
-- Resource bargaining of the controller (crates/vsm-controller/src/runtime.rs): the pressure that recent
-- events put on it, the budget of an epoch, and the decision on a bargain. `F` stands for `f64`, `V` for
-- `serde_json::Value`.
pub mod Pressure
pub mod Epoch
pub mod Allocation
