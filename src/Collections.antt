-- ===== src/Collections.antt =====
-- argus/crates/argus-kernel/src/collections.rs: the order-free set and map over `Vec`. An index loop
-- `while i < len` is a recursion on the entries that are left.
pub mod VecSet
pub mod VecMap
