-- ===== src/Tests.antt =====
-- Runs of the theorems on a small database.
pub mod Data
mod Accounts
mod Objects
mod Listings
mod Nodes
pub mod Uploads
mod Settings
mod Removals
mod Access
mod Files
mod Received
mod Requests
