-- ===== src/Nif/Instance.antt =====
-- ex_argus/native/argus_nif/src/instance.rs: live instances and instances under recovery. A resource is
-- its background beside its mutex; a method returns the resource as it leaves it.
pub mod Resource
pub mod Replay
pub mod Sessions
pub mod Recovered
pub mod Reaches
pub mod Refused
pub mod Chained
pub mod Tamper
