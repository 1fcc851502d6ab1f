-- ===== src/Store.antt =====
-- crates/control-core/src/store: the persistence port and its backends.
pub mod Types
pub mod Document
pub mod Chrono
pub mod Calls
pub mod Table
pub mod FilePath
pub mod Host
pub mod File
pub mod Spec
pub mod Memory
pub mod Contract
pub mod Samples
