-- ===== src/Storage/Engine.antt =====
-- src/storage/engine.rs: the files of the stored objects. The disk is an association list from
-- absolute paths to contents, with at most one entry for a path; directories and the failures of the
-- disk are left out. Unicode lower-casing and the random UUID of a new file are parameters.
pub mod Written
pub mod Hashed
use my_s.Common.{
  Bool, Bytes, List, Option, Text, [], codes, contains_char, delete, dot, ends_with, first,
  if◌then◌else◌, is_empty, length, none, not, rsplit_once, select, slash, some, split, starts_with,
  strip_prefix, sum, text_beq, ℕ, true, false, ◌&&◌, ◌*◌, ◌+◌, ◌++◌, ◌||◌, ◌∷◌,
}
use my_s.Database.{Result, err, etag_mismatch, ok, open_failed, stream_failed}
use my_s.Models.{EtagType}
use my_s.Server.Blobs.{StoredObject}
use my_s.Storage.Hasher.{
  Digests, StreamingHasher, finalize_hasher, new_hasher, update_all, update_hasher,
}

-- `Path::join`
unfoldable pub join_path : Text → Text → Text
join_path base rest =
    if starts_with (slash ∷ []) rest
    then rest
    else if is_empty base || ends_with (slash ∷ []) base
    then base ++ rest
    else base ++ slash ∷ rest

unfoldable pub objects_dir : Text → Text
objects_dir storage_root = join_path storage_root (codes "objects")

unfoldable pub absolute_path_for : Text → Text → Text
absolute_path_for storage_root filepath =
    if starts_with (codes "objects/") filepath || contains_char slash filepath
    then join_path storage_root filepath
    else join_path (objects_dir storage_root) filepath

unfoldable pub relative_filepath : Text → Text → Text
relative_filepath uuid ext = codes "objects/" ++ uuid ++ dot ∷ ext

-- The components of a path, with the parts that `Path::components` skips taken out.
abbrev is_component : Text → Bool
is_component w = not (is_empty w || text_beq w (codes "."))

abbrev last_or_none : Option Text → List Text → Option Text
last_or_none o [] = o
last_or_none o (w ∷ ws) = last_or_none (some w) ws

abbrev not_parent : Option Text → Option Text
not_parent none = none
not_parent (some w) = if text_beq w (codes "..") then none else some w

-- `Path::file_name`
unfoldable pub file_name : Text → Option Text
file_name path = not_parent (last_or_none none (select is_component (split slash path)))

abbrev behind_dot : Option (Text × Text) → Option Text
behind_dot none = none
behind_dot (some ([], ext)) = none
behind_dot (some (c ∷ s, ext)) = some ext

-- `Path::extension`
abbrev extension : Option Text → Option Text
extension none = none
extension (some name) = behind_dot (rsplit_once dot name)

abbrev or_bin : Option Text → Text
or_bin none = codes "bin"
or_bin (some ext) = if is_empty ext then codes "bin" else ext

unfoldable pub extension_from_filename : (Text → Text) → Text → Text
extension_from_filename to_lowercase filename =
    to_lowercase (or_bin (extension (file_name filename)))

abbrev pub Disk : Type 0
Disk = List (Text × Bytes)

abbrev pub at_path : Text → Text × Bytes → Bool
at_path path (p, contents) = text_beq p path

abbrev pub contents_of : Option (Text × Bytes) → Option Bytes
contents_of none = none
contents_of (some (p, contents)) = some contents

unfoldable pub read_file : Text → Disk → Option Bytes
read_file path disk = contents_of (first (at_path path) disk)

unfoldable pub remove_file : Text → Disk → Disk
remove_file path disk = delete (at_path path) disk

-- `File::create` and `write_all`
unfoldable pub write_file : Text → Bytes → Disk → Disk
unfolding remove_file
write_file path contents disk = (path, contents) ∷ remove_file path disk

-- A stream of chunks, each of which may be an error.
abbrev pub Chunks : Type 0
Chunks = List (Option Bytes)

-- What has been written at the end of the stream, or before its first error, and whether it ended.
unfoldable pub drain : Chunks → List Bytes × Bool
drain [] = ([], true)
drain (none ∷ items) = ([], false)
drain (some chunk ∷ items) = let (chunks, ended) = drain items in (chunk ∷ chunks, ended)

unfoldable pub concat : List Bytes → Bytes
concat [] = []
concat (chunk ∷ chunks) = chunk ++ concat chunks

abbrev pub total_of : List Bytes → ℕ
total_of chunks = sum (λ chunk. length chunk) chunks

unfoldable pub unlink_at : Text → Text → Disk → Disk
unlink_at storage_root filepath disk = remove_file (absolute_path_for storage_root filepath) disk

unfoldable pub open_read : Text → Text → Disk → Result Bytes
open_read storage_root filepath disk =
    elim (read_file (absolute_path_for storage_root filepath) disk) [
      | none ↦ err open_failed
      | some contents ↦ ok contents
    ]

abbrev in_dir : Text → Text × Bytes → Bool
in_dir dir (p, contents) = elim (strip_prefix (join_path dir []) p) [
  | none ↦ false
  | some name ↦ not (contains_char slash name)
]

abbrev capacity_or_default : Option ℕ → ℕ
capacity_or_default none = 100 * 1024 * 1024 * 1024
capacity_or_default (some n) = n

-- `capacity` is STORAGE_CAPACITY_BYTES, if it is set and a number.
unfoldable pub disk_usage : Text → Option ℕ → Disk → ℕ × ℕ
disk_usage storage_root capacity disk = (
  sum (λ (f : Text × Bytes). length (f.1)) (select (in_dir (objects_dir storage_root)) disk),
  capacity_or_default capacity,
)

module _ (d : Digests) (to_lowercase : Text → Text) (storage_root : Text) where
  abbrev pub stored_as : Text → Text → EtagType → List Bytes → Text → StoredObject
  stored_as filepath file_format etag_type chunks etag = record {
    filepath = filepath;
    file_format = file_format;
    filesize_bytes = total_of chunks;
    etag_type = etag_type;
    etag = etag;
  }

  abbrev pub is_expected : Option Text → Text → Bool
  is_expected none etag = true
  is_expected (some expected) etag = text_beq expected etag

  -- The end of `put_chunks`: a file with another etag than the expected one is removed.
  abbrev pub check_etag :
      Option Text → Text → StoredObject → Disk → Option (Result StoredObject) × Disk
  check_etag expected path stored disk =
      if is_expected expected stored.etag
      then (some (ok stored), disk)
      else (some (err etag_mismatch), remove_file path disk)

  abbrev pub finish_chunks :
      Option Text
      → Text
      → Text
      → Text
      → EtagType
      → List Bytes
      → Option Text
      → Disk
      → Option (Result StoredObject) × Disk
  finish_chunks expected path filepath file_format etag_type chunks none disk = (none, disk)
  finish_chunks expected path filepath file_format etag_type chunks (some etag) disk =
      check_etag expected path (stored_as filepath file_format etag_type chunks etag) disk

  abbrev pub chosen_path : Text → Text → Option Text → Text
  chosen_path uuid file_format none = relative_filepath uuid file_format
  chosen_path uuid file_format (some filepath) = filepath

  -- The absolute path: of a new file it is joined to the root, of a given one it is looked up.
  abbrev pub chosen_absolute : Text → Option Text → Text
  chosen_absolute filepath none = join_path storage_root filepath
  chosen_absolute filepath (some forced) = absolute_path_for storage_root forced

  -- None is a panic of the hasher. A stream that breaks leaves what was written of the file.
  unfoldable pub put_chunks :
      Text
      → Chunks
      → Text
      → EtagType
      → Option Text
      → Option Text
      → Disk
      → Option (Result StoredObject) × Disk
  put_chunks uuid stream original_filename etag_type expected_etag forced_filepath disk =
      let file_format = extension_from_filename to_lowercase original_filename in
      let filepath = chosen_path uuid file_format forced_filepath in
      let path = chosen_absolute filepath forced_filepath in
      let (chunks, ended) = drain stream in
      let disk' = write_file path (concat chunks) disk in
      if ended
      then finish_chunks expected_etag path filepath file_format etag_type chunks
          (finalize_hasher d (update_all d (new_hasher d etag_type) chunks)) disk'
      else (some (err stream_failed), disk')

  -- `blocks` are what the reads into the buffer return.
  unfoldable pub put_stream :
      Text → List Bytes → Text → EtagType → Disk → Option (Result StoredObject) × Disk
  put_stream uuid blocks original_filename etag_type disk =
      let file_format = extension_from_filename to_lowercase original_filename in
      let filepath = relative_filepath uuid file_format in
      let path = join_path storage_root filepath in
      finish_chunks none path filepath file_format etag_type blocks
        (finalize_hasher d (update_all d (new_hasher d etag_type) blocks))
        (write_file path (concat blocks) disk)

  -- `read_blocks` splits a file into what the reads into the buffer return.
  unfoldable pub hash_filepath :
      (Bytes → List Bytes) → Text → EtagType → Disk → Option (Result Text)
  hash_filepath read_blocks filepath etag_type disk = elim (open_read storage_root filepath disk) [
    | err e ↦ some (err e)
    | ok contents ↦
        elim (finalize_hasher d (update_all d (new_hasher d etag_type) (read_blocks contents))) [
          | none ↦ none
          | some etag ↦ some (ok etag)
        ]
  ]
