-- ===== src/Server/Settings.antt =====
-- src/server/settings_routes.rs: the handlers of the settings pages.
pub mod Login
pub mod Accounts
pub mod Roles
pub mod Buckets
pub mod Nodes
pub mod Etag
pub mod Storage
pub mod Purge
pub mod Recycle
