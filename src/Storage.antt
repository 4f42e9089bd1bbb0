-- ===== src/Storage.antt =====
-- src/storage: the directory of the stored files.
pub mod Hasher
pub mod Engine
pub mod Reconcile
