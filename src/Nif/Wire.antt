-- ===== src/Nif/Wire.antt =====
-- ex_argus/native/argus_nif/src/wire.rs: the structs on the wire.
pub mod Structs
pub mod Commands
pub mod Actions
pub mod Background
pub mod Envelope
pub mod Equality
pub mod Ceilings
