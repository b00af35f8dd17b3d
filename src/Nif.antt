-- ===== src/Nif.antt =====
-- ex_argus/native/argus_nif/src: the native adapter around the kernel.
pub mod Text
pub mod Enums
pub mod Wire
pub mod Event
pub mod Chain
pub mod Limits
pub mod Command
pub mod Instance
