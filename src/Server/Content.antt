-- ===== src/Server/Content.antt =====
-- src/server/web_routes.rs and src/server/s3_routes.rs: the contents of an object for the browser,
-- with the checks of src/server/session_auth.rs before it.
pub mod Served
use my_s.Common.{
  Bool, List, Option, Text, any, false, if◌then◌else◌, is_empty, ltb, none, some, text_beq, trim,
  true, ℕ, ◌&&◌,
}
use my_s.Database.{Db, Result, err, ok}
use my_s.Keys.{normalize_object_key}
use my_s.Models.{BucketRecord, CrudAction, ObjectRecord, read_action}
use my_s.Objects.Rows.{get_object_by_filename, get_object_by_filename_in_bucket}
use my_s.Rbac.Buckets.{get_bucket_by_name, storage}
use my_s.Rbac.Permissions.{check_perm}
use my_s.Server.Blobs.{Store}
use my_s.Server.Ranges.{parse_bytes_range}

-- The responses: 400, 404 for the bucket, 403, 404 for the key, 416, 500, 206 with the range, 200.
pub data Content : Type 0 where
  bad_key no_bucket forbidden no_key unsatisfiable unreadable : Content
  partial : ObjectRecord → ℕ → ℕ → Content
  whole_file : ObjectRecord → Content

abbrev trimmed_or_storage : Option Text → Text
trimmed_or_storage none = storage
trimmed_or_storage (some name) = if is_empty (trim name) then storage else trim name

unfoldable pub resolve_bucket_id : Option Text → Db → Option BucketRecord
resolve_bucket_id bucket_name db = get_bucket_by_name (trimmed_or_storage bucket_name) db

unfoldable pub require_bucket_perm : ℕ → ℕ → CrudAction → Db → Bool
require_bucket_perm account_id bucket_id action db = check_perm account_id bucket_id action db

abbrev pub parsed_range : Option Text → ℕ → Option (ℕ × ℕ)
parsed_range none file_len = none
parsed_range (some r) file_len = parse_bytes_range r file_len

abbrev is_given : Option Text → Bool
is_given none = false
is_given (some _) = true

-- The answer once the range has been parsed.
abbrev pub respond : ObjectRecord → Option Text → Option (ℕ × ℕ) → List Text → Content
respond o header none files =
    if is_given header && ltb 0 o.filesize_bytes
    then unsatisfiable
    else if any (λ f. text_beq f o.filepath) files
    then whole_file o
    else unreadable
respond o header (some (start, stop)) files =
    if any (λ f. text_beq f o.filepath) files then partial o start stop else unreadable

-- The object is looked up by its name in all buckets.
unfoldable pub get_object_keyed_with_headers : Text → Option Text → Store → Content
get_object_keyed_with_headers key header s = elim (get_object_by_filename key s.db) [
  | none ↦ no_key
  | some o ↦ respond o header (parsed_range header o.filesize_bytes) s.files
]

abbrev pub in_bucket_content : Text → Option Text → Store → Option ObjectRecord → Content
in_bucket_content key header s none = no_key
in_bucket_content key header s (some _) = get_object_keyed_with_headers key header s

abbrev pub bucket_content : Text → ℕ → Option Text → Store → Option BucketRecord → Content
bucket_content key account_id header s none = no_bucket
bucket_content key account_id header s (some b) =
    if require_bucket_perm account_id b.id read_action s.db
    then in_bucket_content key header s (get_object_by_filename_in_bucket key b.id s.db)
    else forbidden

abbrev pub key_content : Option Text → ℕ → Option Text → Store → Result Text → Content
key_content bucket_name account_id header s (err e) = bad_key
key_content bucket_name account_id header s (ok key) =
    bucket_content key account_id header s (resolve_bucket_id bucket_name s.db)

unfoldable pub web_get_object_content : Text → Option Text → ℕ → Option Text → Store → Content
web_get_object_content raw_key bucket_name account_id header s =
    key_content bucket_name account_id header s (normalize_object_key raw_key)
