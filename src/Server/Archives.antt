-- ===== src/Server/Archives.antt =====
-- src/server/folder_archive.rs, and its handler in src/server/web_routes.rs: a folder as an archive.
-- The writers of the archive formats are a parameter: the bytes that they have written to the new file,
-- and whether they came to the end. `unique` is the process id and the UUID in the name of that file.
pub mod Entries
pub mod Temporary
use my_s.Common.{
  Bool, Bytes, List, Option, Text, [], any, codes, contains_char, dot, false, if◌then◌else◌,
  is_empty, length, map, nat_beq, none, not, slash, some, split, strip_prefix, text_beq, trim,
  trim_end_matches, true, ℕ, ◌&&◌, ◌++◌, ◌||◌, ◌∷◌,
}
use my_s.Database.{Db, Error, Result, archive_empty, err, ok, open_failed}
use my_s.Keys.{is_slash, normalize_folder_prefix}
use my_s.Models.{ObjectRecord, read_action}
use my_s.Objects.Folders.{list_keys_under_prefix}
use my_s.Objects.Listing.{base_name, keep}
use my_s.Server.Content.{require_bucket_perm, resolve_bucket_id}
use my_s.Server.Http.{
  Handler, Served, StatusCode, bad_request, demand, forbidden, http_ok, internal_server_error,
  lookup, not_found, read, refuse, refused, reply, says, served, ◌>>=◌, ◌>>◌,
}
use my_s.Server.Sharing.{or_bad_request}
use my_s.Sql.Like.{fold_case}
use my_s.Storage.Engine.{Disk, absolute_path_for, join_path, remove_file, write_file}

pub data ArchiveFormat : Type 0 where
  zip tar_gz seven_z : ArchiveFormat

unfoldable pub parse_format : Text → Option ArchiveFormat
unfolding fold_case text_beq
parse_format raw =
    let name = map fold_case (trim raw) in
    if text_beq name (codes "zip")
    then some zip
    else if text_beq name (codes "tar.gz") || text_beq name (codes "tgz")
    then some tar_gz
    else if text_beq name (codes "7z")
    then some seven_z
    else none

abbrev pub extension : ArchiveFormat → Text
extension zip = codes "zip"
extension tar_gz = codes "tar.gz"
extension seven_z = codes "7z"

abbrev pub content_type : ArchiveFormat → Text
content_type zip = codes "application/zip"
content_type tar_gz = codes "application/gzip"
content_type seven_z = codes "application/x-7z-compressed"

abbrev pub is_dots : Text → Bool
is_dots s = text_beq s (codes ".") || text_beq s (codes "..")

-- The tests of the loop after the prefix has been stripped.
abbrev pub is_skipped : Text → Bool
is_skipped rel = is_empty rel || contains_char 0 rel || any is_dots (split slash rel)

abbrev pub entry_of : Text → ObjectRecord → Option Text → List (Text × Text) → List (Text × Text)
entry_of root r none entries = entries
entry_of root r (some rel) entries =
    if is_skipped rel then entries else (rel, absolute_path_for root r.filepath) ∷ entries

-- The names in the archive, with the absolute paths of the files.
unfoldable pub filter_archive_entries : Text → Text → List ObjectRecord → List (Text × Text)
filter_archive_entries root prefix [] = []
filter_archive_entries root prefix (r ∷ records) =
    let rest = filter_archive_entries root prefix records in
    if text_beq (base_name r.original_filename) keep
    then rest
    else entry_of root r (strip_prefix prefix r.original_filename) rest

abbrev or_folder : Text → Text
or_folder name = if is_empty name then codes "folder" else name

unfoldable pub folder_download_basename : Text → Text
folder_download_basename prefix = or_folder (base_name (trim_end_matches is_slash prefix))

-- `"`, `\\` and `/` give way to `_`.
abbrev header_safe : ℕ → ℕ
header_safe c = if nat_beq c 0x22 || (nat_beq c 0x5c || nat_beq c 0x2f) then 0x5f else c

unfoldable pub download_filename : Text → ArchiveFormat → Text
download_filename prefix format =
    map header_safe (folder_download_basename prefix) ++ dot ∷ extension format

pub record ArchiveResponse : Type 0 where
  pub content_type : Text
  pub content_length : ℕ
  pub filename : Text
  pub body : Bytes

-- The database, and the files on the disk.
abbrev pub Files : Type 0
Files = Db × Disk

abbrev pub on_rows : {A : Type 0} → (Db → A) → Files → A
on_rows f (db, disk) = f db

abbrev unbuilt : Error → StatusCode
unbuilt e = if says "folder is empty" e then bad_request else internal_server_error

abbrev pub has_none : List (Text × Text) → Bool
has_none [] = true
has_none (e ∷ es) = false

module _ (write : ArchiveFormat → List (Text × Text) → Disk → Bytes × Bool)
    (root unique : Text) where
  unfoldable pub archive_path : ArchiveFormat → Text
  archive_path format =
      join_path (join_path root (codes "tmp"))
        (codes "archive-" ++ unique ++ dot ∷ extension format)

  -- The archive's path. A writer that fails leaves what it has written.
  unfoldable pub build_archive :
      ArchiveFormat → List (Text × Text) → Disk → Result (Text × Bytes) × Disk
  build_archive format [] disk = (err archive_empty, disk)
  build_archive format (entry ∷ entries) disk =
      let (bytes, complete) = write format (entry ∷ entries) disk in
      let path = archive_path format in
      let disk' = write_file path bytes disk in
      if complete then (ok (path, bytes), disk') else (err open_failed, disk')

  abbrev pub archive_response : ArchiveFormat → Text → Bytes → ArchiveResponse
  archive_response format prefix bytes = record {
    content_type = content_type format;
    content_length = length bytes;
    filename = download_filename prefix format;
    body = bytes;
  }

  -- The answer once the archive is built. `TempArchive` is dropped after the body has been sent, and its
  -- file with it.
  abbrev pub send_archive :
      ArchiveFormat
      → Text
      → Db
      → Result (Text × Bytes) × Disk
      → Served (StatusCode × ArchiveResponse) × Files
  send_archive format prefix db (err e, disk) = (refused (unbuilt e), (db, disk))
  send_archive format prefix db (ok (path, bytes), disk) =
      (served (http_ok, archive_response format prefix bytes), (db, remove_file path disk))

  unfoldable pub folder_archive :
      ℕ → Option Text → Text → Text → Handler Files (StatusCode × ArchiveResponse)
  folder_archive auth bucket raw_prefix raw_format = do
    prefix ← or_bad_request (normalize_folder_prefix raw_prefix)
    format ← lookup (λ _. parse_format raw_format) bad_request
    b ← lookup (on_rows (resolve_bucket_id bucket)) not_found
    demand (on_rows (require_bucket_perm auth b.id read_action)) forbidden
    rows ← read (on_rows (list_keys_under_prefix b.id prefix))
    demand (λ _. not (has_none (filter_archive_entries root prefix rows))) bad_request
    λ (db, disk).
        send_archive format prefix db
          (build_archive format (filter_archive_entries root prefix rows) disk)
