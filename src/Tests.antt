-- ===== src/Tests.antt =====
-- A run of the kernel, and each property at a concrete input.
pub mod Scenario
pub mod Life
pub mod Facts
pub mod Runs
pub mod Gates
pub mod Outcomes
pub mod Collections
pub mod Arrivals
pub mod Chain
pub mod Instance
