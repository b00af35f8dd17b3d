-- ===== src/History.antt =====
-- The consumed identifiers that state.rs keeps.
pub mod Grows
pub mod Replay
