-- ===== src/Gates.antt =====
-- What the holds and the checks of transitions.rs decide.
pub mod Holds
pub mod Checks
pub mod Fits
pub mod Egress
