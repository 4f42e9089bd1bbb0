-- ===== src/Database.antt =====
-- The SQLite database behind src/db: one list of rows for each table of migrations/*.sql, in rowid
-- order, with the AUTOINCREMENT counters. A statement is an action on it that returns or fails; a
-- failed statement changes nothing, and a failure inside a transaction rolls the whole of it back.
-- Statements fail by the constraints of the schema and by the checks of the code; the failures of
-- the disk and of the connection are left out.
mod Actions
unfoldable pub use Actions.*
use my_s.Common.{List, ℕ}
use my_s.Models.{
  AccountRecord, AccountRole, AppSettings, BucketNodeAssignment, BucketRecord, ClusterPeer,
  ObjectRecord, OutboxRow, RoleBucketPermission, RoleRecord, SessionRow, ShareLinkRecord,
  ShareLinkUser,
}

pub record Db : Type 0 where
  pub objects : List ObjectRecord
  pub next_object : ℕ
  pub buckets : List BucketRecord
  pub next_bucket : ℕ
  pub accounts : List AccountRecord
  pub next_account : ℕ
  pub roles : List RoleRecord
  pub next_role : ℕ
  pub account_roles : List AccountRole
  pub permissions : List RoleBucketPermission
  pub sessions : List SessionRow
  pub settings : AppSettings
  pub peers : List ClusterPeer
  pub assignments : List BucketNodeAssignment
  pub outbox : List OutboxRow
  pub next_outbox : ℕ
  pub shares : List ShareLinkRecord
  pub next_share : ℕ
  pub share_users : List ShareLinkUser
