-- ===== src/Objects.antt =====
-- src/db/repository.rs: objects.
pub mod Rows
pub mod Bin
pub mod Etags
pub mod Folders
pub mod Paging
pub mod Listing
