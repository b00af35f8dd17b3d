-- ===== src/Safety.antt =====
-- What follows for the states and the runs of the kernel: containment, label growth, revocation.
pub mod Containment
pub mod Labels
pub mod Revocation
pub mod Root
pub mod Arrivals
