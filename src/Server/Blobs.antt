-- ===== src/Server/Blobs.antt =====
-- src/server/s3_routes.rs and src/server/purge.rs: uploads and the purge, which change the database
-- and the stored files together. An upload's file is written by the engine: what comes of it is an
-- argument.
pub mod Kept
pub mod Purged
use my_s.Common.{List, Option, Text, [], delete, first, none, some, sub_ℕ, text_beq, ℕ, ◌-◌, ◌∷◌}
use my_s.Database.{Db, Exec, Result, bucket_not_found, err, ok, pure, transaction, ◌>>=◌, ◌>>◌}
use my_s.Models.{EtagType, ObjectRecord, to_seconds}
use my_s.Objects.Bin.{list_expired_deleted_objects, soft_delete_object_by_filename}
use my_s.Objects.Rows.{
  delete_rows, get_object_by_filename_in_bucket, has_object_id, insert_object_tx,
}
use my_s.Rbac.Buckets.{has_name, storage}
use my_s.Rbac.Permissions.{has_bucket_id}
use my_s.Replication.Nodes.{check_hard_quota}
use my_s.Replication.Outbox.{enqueue_delete_for_active_peers, enqueue_put_for_active_peers}

pub record Store : Type 0 where
  pub db : Db
  pub files : List Text

-- src/storage/engine.rs
pub record StoredObject : Type 0 where
  pub filepath : Text
  pub file_format : Text
  pub filesize_bytes : ℕ
  pub etag_type : EtagType
  pub etag : Text

-- What comes of `put_chunks`: the record of the stored file, the partial file that a stream that breaks
-- leaves behind, or nothing, where no file could be made.
pub data EngineOutcome : Type 0 where
  finished : StoredObject → EngineOutcome
  broken_off : Text → EngineOutcome
  not_begun : EngineOutcome

-- The status of the response: 200, 413 or 500.
pub data PutResponse : Type 0 where
  stored_ok : Text → PutResponse
  payload_too_large internal_error : PutResponse

unfoldable pub default_bucket_id : Db → Option ℕ
default_bucket_id db = elim (first (has_name storage) db.buckets) [
  | none ↦ none
  | some b ↦ some b.id
]

unfoldable pub bucket_etag_type : ℕ → Db → Result EtagType
bucket_etag_type bucket_id db = elim (first (has_bucket_id bucket_id) db.buckets) [
  | none ↦ err bucket_not_found
  | some b ↦ ok b.etag_type
]

abbrev pub unlink : Text → List Text → List Text
unlink path files = delete (λ f. text_beq f path) files

abbrev pub size_of : Option ObjectRecord → ℕ
size_of none = 0
size_of (some o) = o.filesize_bytes

-- The statements of the transaction: the row and its PUT jobs.
unfoldable pub record_object : ℕ → Text → StoredObject → ℕ → Text → Exec Db ℕ
record_object now key stored bucket_id node_id = do
  id ←
      insert_object_tx now key stored.filepath stored.file_format stored.filesize_bytes
        stored.etag_type stored.etag bucket_id
  _ ← enqueue_put_for_active_peers now id stored.filepath stored.etag node_id
  pure id

abbrev pub answer : Text → StoredObject → Result ℕ × Db → List Text → PutResponse × Store
answer path stored (ok id, db) files = (stored_ok stored.etag, record { db = db; files = files })
answer path stored (err e, db) files =
    (internal_error, record { db = db; files = unlink path files })

-- The soft delete goes to the pool, outside the transaction.
abbrev pub replace_object :
    ℕ → Text → StoredObject → ℕ → Text → Db → List Text → PutResponse × Store
replace_object now key stored b node_id db files =
    let db' = (soft_delete_object_by_filename now key (some b) db).1 in
    answer stored.filepath stored (transaction (record_object now key stored b node_id) db') files

abbrev pub check_then_put :
    ℕ → Text → StoredObject → ℕ → Text → Db → List Text → PutResponse × Store
check_then_put now key stored b node_id db files =
    elim (check_hard_quota b
      (sub_ℕ stored.filesize_bytes (size_of (get_object_by_filename_in_bucket key b db))) db) [
        | err e ↦ (payload_too_large, record { db = db; files = unlink stored.filepath files })
        | ok _ ↦ replace_object now key stored b node_id db files
      ]

abbrev pub put_stored : ℕ → Text → EngineOutcome → ℕ → Text → Store → PutResponse × Store
put_stored now key not_begun b node_id s = (internal_error, s)
put_stored now key (broken_off path) b node_id s =
    (internal_error, record { db = s.db; files = path ∷ s.files })
put_stored now key (finished stored) b node_id s =
    check_then_put now key stored b node_id s.db (stored.filepath ∷ s.files)

abbrev pub put_in_bucket : ℕ → Text → EngineOutcome → Option ℕ → Text → Store → PutResponse × Store
put_in_bucket now key stored none node_id s = (internal_error, s)
put_in_bucket now key stored (some b) node_id s = elim (bucket_etag_type b s.db) [
  | err e ↦ (internal_error, s)
  | ok _ ↦ put_stored now key stored b node_id s
]

abbrev pub given_or : Option ℕ → Option ℕ → Option ℕ
given_or none d = d
given_or (some b) d = some b

unfoldable pub put_object_keyed_in_bucket :
    ℕ → Text → EngineOutcome → Option ℕ → Text → Store → PutResponse × Store
put_object_keyed_in_bucket now key stored bucket_id node_id s =
    put_in_bucket now key stored (given_or bucket_id (default_bucket_id s.db)) node_id s

-- The loop over the expired objects; no statement of its transactions fails.
unfoldable pub purge_object : ℕ → Text → ObjectRecord → Store → Store
purge_object now node_id o s =
    let db' = (enqueue_delete_for_active_peers now o.id o.filepath o.etag node_id s.db).1 in
    record { db = delete_rows (has_object_id o.id) db'; files = unlink o.filepath s.files }

unfoldable pub purge_all : ℕ → Text → List ObjectRecord → Store → Store
purge_all now node_id [] s = s
purge_all now node_id (o ∷ os) s = purge_all now node_id os (purge_object now node_id o s)

-- `Utc::now() - seconds`; retention is not negative, and the time does not leave chrono's range.
unfoldable pub purge_once : ℕ → Text → Store → Store
purge_once now node_id s =
    let secs =
      to_seconds s.db.settings.recycle_retention_unit s.db.settings.recycle_retention_value in
    purge_all now node_id (list_expired_deleted_objects (now - secs) s.db) s
