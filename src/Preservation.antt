-- ===== src/Preservation.antt =====
-- The invariants of invariants.rs across the transitions of transitions/.
pub mod Frames
pub mod Registry
pub mod Dropped
pub mod Delegate
pub mod Revoke
pub mod Grants
pub mod Relabel
pub mod Ingest
pub mod Settle
pub mod Crossing
pub mod Cross
pub mod Pended
pub mod Begin
pub mod Authorize
