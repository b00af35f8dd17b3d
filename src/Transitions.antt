-- ===== src/Transitions.antt =====
-- argus/crates/argus-kernel/src/transitions.rs: the twelve pure transitions. A transition takes the
-- state and returns the next state with the recorded action, or a refusal.
pub mod Registry
pub mod Agents
pub mod Holds
pub mod Ingest
pub mod Settle
pub mod Checks
pub mod Begin
pub mod Authorize
pub mod Cross
