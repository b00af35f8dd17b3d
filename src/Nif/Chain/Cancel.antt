-- ===== src/Nif/Chain/Cancel.antt =====
-- The writers of a transcript, read back: which values and which remainders equal bytes come from.
pub mod Tags
pub mod Plain
pub mod Structs
pub mod Commands
pub mod Actions
pub mod Command
pub mod Action
