-- ===== src/Objects/Rows.antt =====
-- src/db/repository.rs: rows of the table `object`, their constraints and the queries for one row.
pub mod Unique
pub mod Lookup
use my_s.Common.{
  Bool, Option, Text, [], any, delete, false, first, if◌then◌else◌, map, nat_beq, none, not, some,
  text_beq, true, ℕ, ◌&&◌, ◌++◌, ◌+◌, ◌||◌, ◌∷◌,
}
use my_s.Database.{
  Db, Exec, check_violation, err, foreign_key_violation, ok, pure, unique_violation, ◌>>◌,
}
use my_s.Models.{EtagType, ObjectRecord, OutboxRow, parse_etag_type}
use my_s.Rbac.Permissions.{has_bucket_id}

abbrev pub has_object_id : ℕ → ObjectRecord → Bool
has_object_id id o = nat_beq o.id id

abbrev pub has_filepath : Text → ObjectRecord → Bool
has_filepath path o = text_beq o.filepath path

-- deleted_at IS NULL
abbrev pub is_active : ObjectRecord → Bool
is_active o = elim o.deleted_at [ none ↦ true | some _ ↦ false ]

-- The key of the partial unique index `idx_object_bucket_key_active`.
abbrev pub has_active_key : ℕ → Text → ObjectRecord → Bool
has_active_key bucket_id key o =
    is_active o && (nat_beq o.bucket_id bucket_id && text_beq o.original_filename key)

abbrev pub has_active_name : Text → ObjectRecord → Bool
has_active_name key o = is_active o && text_beq o.original_filename key

-- What an INSERT of a row checks: the unique path, the unique active key, the foreign key.
abbrev pub insert_row : ObjectRecord → Exec Db ℕ
insert_row o db =
    if any (has_filepath o.filepath) db.objects
      || (is_active o && any (has_active_key o.bucket_id o.original_filename) db.objects)
    then (err unique_violation, db)
    else if not (any (has_bucket_id o.bucket_id) db.buckets)
    then (err foreign_key_violation, db)
    else (ok o.id, record db { objects = db.objects ++ o ∷ []; next_object = db.next_object + 1 })

-- The row that an upload inserts, with the defaults of the schema.
abbrev pub uploaded_row : ℕ → ℕ → Text → Text → Text → ℕ → EtagType → Text → ℕ → ObjectRecord
uploaded_row id now original_filename path file_format filesize_bytes etag_type etag bucket_id =
    record {
      id = id;
      original_filename = original_filename;
      filepath = path;
      file_format = file_format;
      filesize_bytes = filesize_bytes;
      etag_type = etag_type;
      etag = etag;
      date_uploaded = now;
      date_modified = now;
      bucket_id = bucket_id;
      deleted_at = none;
    }

unfoldable pub insert_object_tx : ℕ → Text → Text → Text → ℕ → EtagType → Text → ℕ → Exec Db ℕ
insert_object_tx now original_filename path file_format filesize_bytes etag_type etag bucket_id db =
    insert_row
      (uploaded_row db.next_object now original_filename path file_format filesize_bytes etag_type
        etag bucket_id)
      db

-- COALESCE(value, CURRENT_TIMESTAMP)
abbrev pub coalesce : Option ℕ → ℕ → ℕ
coalesce none now = now
coalesce (some t) now = t

-- ON CONFLICT(filepath) DO NOTHING
-- The CHECK of the table on the type comes before the conflict of paths, which is no error.
unfoldable pub insert_object_idempotent :
    ℕ → Text → Text → Text → ℕ → Text → Text → Option ℕ → Option ℕ → ℕ → Exec Db (Unit {0})
insert_object_idempotent now original_filename path file_format filesize_bytes etag_type etag
      uploaded modified bucket_id db =
    elim (parse_etag_type etag_type) [
      | none ↦ (err check_violation, db)
      | some known ↦
          if any (has_filepath path) db.objects
          then (ok tt, db)
          else (insert_row (record {
            id = db.next_object;
            original_filename = original_filename;
            filepath = path;
            file_format = file_format;
            filesize_bytes = filesize_bytes;
            etag_type = known;
            etag = etag;
            date_uploaded = coalesce uploaded now;
            date_modified = coalesce modified now;
            bucket_id = bucket_id;
            deleted_at = none;
          })
                >> pure tt)
              db
    ]

unfoldable pub get_object_by_filename : Text → Db → Option ObjectRecord
get_object_by_filename filename db = first (has_active_name filename) db.objects

unfoldable pub get_object_by_filename_in_bucket : Text → ℕ → Db → Option ObjectRecord
get_object_by_filename_in_bucket filename bucket_id db =
    first (has_active_key bucket_id filename) db.objects

unfoldable pub get_object_by_id : ℕ → Db → Option ObjectRecord
get_object_by_id id db = first (has_object_id id) db.objects

unfoldable pub object_by_filepath : Text → Db → Option ObjectRecord
object_by_filepath path db = first (λ o. has_filepath path o && is_active o) db.objects

-- The outbox rows of a deleted object keep no reference to it (ON DELETE SET NULL).
abbrev forget_object : (ℕ → Bool) → OutboxRow → OutboxRow
forget_object gone r = elim r.object_id [
  | none ↦ r
  | some o ↦ if gone o then record r { object_id = none } else r
]

-- DELETE FROM object WHERE p
unfoldable pub delete_rows : (ObjectRecord → Bool) → Db → Db
delete_rows p db = record db {
  objects = delete p db.objects;
  outbox =
      map (forget_object (λ o. any (λ (r : ObjectRecord). p r && nat_beq r.id o) db.objects))
        db.outbox;
}

unfoldable pub delete_object_by_filename_tx : Text → Exec Db (Option ObjectRecord)
delete_object_by_filename_tx filename db = elim (first (has_active_name filename) db.objects) [
  | none ↦ (ok none, db)
  | some r ↦ (ok (some r), delete_rows (has_object_id r.id) db)
]

unfoldable pub hard_delete_object_tx : ℕ → Exec Db (Option ObjectRecord)
hard_delete_object_tx id db = elim (first (has_object_id id) db.objects) [
  | none ↦ (ok none, db)
  | some r ↦ (ok (some r), delete_rows (has_object_id r.id) db)
]

unfoldable pub delete_object_by_filepath : Text → Exec Db Bool
delete_object_by_filepath path db =
    (ok (any (has_filepath path) db.objects), delete_rows (has_filepath path) db)
