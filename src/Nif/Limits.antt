-- ===== src/Nif/Limits.antt =====
-- ex_argus/native/argus_nif/src/limits.rs: the protocol's bounds on what an instance keeps and is given.
pub mod Bounds
pub mod Budget
pub mod Command
pub mod State
pub mod Preflight
pub mod Fits
pub mod Answers
pub mod Crossings
