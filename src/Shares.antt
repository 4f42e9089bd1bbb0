-- ===== src/Shares.antt =====
-- src/db/shares.rs: links to files and folders.
pub mod Links
pub mod Scope
