-- ===== src/Nif/Chain.antt =====
-- ex_argus/native/argus_nif/src/chain.rs: the canonical transcripts and their digests.
pub mod Transcript
pub mod Tags
pub mod Structs
pub mod Commands
pub mod Actions
pub mod Sets
pub mod Link
pub mod Links
pub mod Cancel
