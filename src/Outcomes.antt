-- ===== src/Outcomes.antt =====
-- What an accepted transition of transitions.rs tells: the guards that passed and the state it returns.
pub mod Structural
pub mod Labels
pub mod Admission
pub mod Verdict
pub mod Settlement
pub mod Crossings
pub mod Removal
pub mod Answers
