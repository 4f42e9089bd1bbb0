-- ===== src/Server.antt =====
-- src/server: the handlers and workers over the database and the stored files.
pub mod Ranges
pub mod Numbers
pub mod Media
pub mod Signatures
pub mod Sharing
pub mod Archives
pub mod S3
pub mod Web
pub mod Blobs
pub mod Content
pub mod Receive
pub mod Http
pub mod Auth
pub mod Settings
