-- ===== src/Rbac.antt =====
-- src/db/rbac.rs: accounts, roles, permissions, sessions, buckets and settings.
pub mod Accounts
pub mod Roles
pub mod Permissions
pub mod Sessions
pub mod Buckets
