-- ===== src/Lib.antt =====
-- MyS3: an S3-style object store with accounts, share links and replication between nodes.
--
-- The program is a server over a SQLite database and a directory of files. src/db holds every
-- statement on the database: repository.rs (objects, listings, replication), rbac.rs (accounts,
-- roles, permissions, sessions, buckets, settings), shares.rs (share links), models.rs (row types).
-- src/server has the request handlers and background workers, src/cluster sends the jobs of the
-- outbox to other nodes, src/storage writes the files.
--
-- How the files correspond to the code:
--   Common        shared types, Boolean tests, lists, sorting, Rust's text operations, integers, UTF-8
--   Models        src/db/models.rs, and rows of the tables that have no struct there
--   Database      the database: one list of rows per table, in rowid order; its child Actions has
--                 the actions that return or fail, with transactions
--   Sql           the LIKE operator, and `like_escape` of repository.rs and shares.rs
--   Keys          src/server/keys.rs
--   Rbac          src/db/rbac.rs: Accounts, Roles, Permissions, Sessions, Buckets
--   Objects       src/db/repository.rs: Rows (one object), Bin (recycle bin), Folders (prefixes of
--                 keys), Etags (totals, and the rehash with src/server/etag_rehash.rs), Paging and
--                 Listing (list_objects_with_prefix)
--   Replication   src/db/repository.rs: Nodes (peers, assignments, quotas), Outbox (jobs); and
--                 Worker (src/cluster/worker.rs), AntiEntropy (src/cluster/anti_entropy.rs)
--   Shares        src/db/shares.rs: Links (rows of share_link), Scope (keys that a share covers)
--   Server        src/server: Http (responses, and handlers as actions), Auth (session_auth.rs), Ranges (Range
--                 header), Blobs (uploads and the purge, over database and files together, of
--                 s3_routes.rs and purge.rs), S3 (the rest of s3_routes.rs), Content (downloads, with
--                 web_routes.rs), Web (the rest of web_routes.rs; its child Media has the media
--                 links), Archives (folder_archive.rs and its handler), Sharing (share_routes.rs; its
--                 child Access has what a link gives access to), Media (media_access.rs), Numbers
--                 (integers as text, for the tokens), Signatures (auth_sigv4.rs), Receive
--                 (src/cluster/grpc_server.rs), Settings (settings_routes.rs: Login, Accounts, Roles,
--                 Buckets, Nodes, Etag, Storage, Recycle, and Purge for hard_purge_object)
--   Storage       src/storage: Engine (engine.rs), Hasher (hasher.rs), Reconcile (reconcile.rs)
--   Config        src/config.rs: arguments and environment; its child Paths has the storage paths
--   Tests         a small database, and runs of the theorems on it
--
-- A function of the source has a definition of the same name. A query is a function of the database
-- `Db`; a statement that changes it is an action `Exec Db A`, from a database to a result and a
-- database. A statement that fails changes nothing; `transaction` restores the database after a
-- failure. A handler is a `Handler`: it ends with a value or refuses with a status, and keeps what it
-- has changed by then. Handlers that share their name with a statement have a name of their own:
-- `get_…` for a handler that lists, `post_…` for one that creates, `…_by` for one that deletes. The
-- unique, foreign-key and CHECK constraints of migrations/*.sql are tests that make a statement
-- fail. The current time is an argument `now`, in seconds; ids, sizes and times are natural numbers;
-- numbers of a request or a token that may be negative are integers `ℤ`, and saturating operations
-- are written out. Text is the list of its code points, and its bytes are those of UTF-8. ORDER BY
-- keeps rows with equal keys in rowid order. The files of the engine are an association list from
-- absolute paths to contents; where only their names matter, a list of paths.
--
-- Fuel: the loop over the command line has the number of its arguments, of which each turn takes at
-- least one. The retries of `create_share` are bounded by the 8 attempts of the source, and no other
-- definition has a bound of its own but the digits of a number and the repeated prefixes of a path,
-- whose fuel is the number and the length of the path.
--
-- Parameters are the password hash and its check, the random codes of share links, Unicode
-- lower-casing, the hash functions with their hexadecimal digits, HMAC, the encoding of keys in base64,
-- the sizes of reads from a file, the writers of archive formats, the text of a time, the parsing of
-- socket addresses and the environment, the answer of a peer to a digest request, and the delivery of a
-- job; what the engine makes of the stream of an upload is an argument of the upload. Hypotheses on
-- them say what the libraries document: hashing is a fold over the bytes, decoding undoes encoding,
-- signatures and encoded keys are printable without dots. Hypotheses on a database are its constraints: `IsValid`
-- says that ids, paths and active keys of objects are unique and the next id is new.
--
-- Not modelled: failures of the disk but for a missing file, and of the connection but for a broken
-- upload; HTTP, gRPC and its client, the network tunnel, the browser interface, the terminal dashboard,
-- static files and the picture of a QR code; the change of the storage directory
-- (relocate.rs and put_storage_settings) and the seeding and heartbeats of peers (peer_manager.rs).
pub mod Common
pub mod Config
pub mod Database
pub mod Keys
pub mod Models
pub mod Objects
pub mod Rbac
pub mod Replication
pub mod Server
pub mod Shares
pub mod Sql
pub mod Storage
pub mod Tests
