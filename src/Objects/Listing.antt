-- ===== src/Objects/Listing.antt =====
-- src/db/repository.rs: listings by prefix and delimiter or by search, in pages. Lengths and indexes
-- count characters where the source counts bytes, so a delimiter begins with a one-byte character.
pub mod Totals
use mathlib.Core.List.{reverse}
use my_s.Common.{
  Bool, List, Option, Text, [], codes, contains, ends_with, false, if◌then◌else◌, is_empty, map,
  nat_beq, none, not, order_by, select, slash, some, split, starts_with, strip_prefix, take,
  text_beq, text_leb, true, ℕ, ℤ, ◌&&◌, ◌++◌, ◌+◌, ◌∷◌,
}
use my_s.Database.{Db}
use my_s.Models.{ObjectRecord}
use my_s.Objects.Folders.{FolderEntry, greatest, least, name_leb}
use my_s.Objects.Paging.{PrefixListResult, page_folder_object_lists}
use my_s.Objects.Rows.{is_active}
use my_s.Sql.Like.{backslash, like, like_escape, percent}

unfoldable pub add_row : FolderEntry → ObjectRecord → FolderEntry
add_row e row = record {
  prefix = e.prefix;
  date_created = some (least e.date_created row.date_uploaded);
  date_modified = some (greatest e.date_modified row.date_modified);
  total_bytes = e.total_bytes + row.filesize_bytes;
  object_count = e.object_count + 1;
}

-- The loop over the rows; a row outside the prefix is skipped.
unfoldable pub add_rows : FolderEntry → List ObjectRecord → FolderEntry
unfolding add_row
add_rows e [] = e
add_rows e (row ∷ rows) =
    let skipped = add_rows e rows in
    let added = add_rows (add_row e row) rows in
    if starts_with e.prefix row.original_filename then added else skipped

unfoldable pub folder_entry_from_rows : Text → List ObjectRecord → FolderEntry
folder_entry_from_rows prefix rows =
    add_rows
      (record {
        prefix = prefix;
        date_created = none;
        date_modified = none;
        total_bytes = 0;
        object_count = 0;
      })
      rows

-- `BTreeSet::insert`
unfoldable pub set_insert : Text → List Text → List Text
set_insert t [] = t ∷ []
set_insert t (u ∷ us) =
    let rest = set_insert t us in
    if text_beq t u then u ∷ us else if text_leb t u then t ∷ u ∷ us else u ∷ rest

-- `rsplit('/').next()`
abbrev last_part : Text → List Text → Text
last_part d [] = d
last_part d (w ∷ ws) = last_part w ws

unfoldable pub base_name : Text → Text
base_name key = last_part [] (split slash key)

abbrev pub keep : Text
keep = codes ".keep"

abbrev strip_suffix : Text → Text → Option Text
strip_suffix suffix s = elim (strip_prefix (reverse suffix) (reverse s)) [
  | none ↦ none
  | some t ↦ some (reverse t)
]

abbrev as_folder : Text → Text
as_folder dir = if ends_with (slash ∷ []) dir then dir else dir ++ slash ∷ []

abbrev add_keep_folder : Option Text → List Text → List Text
add_keep_folder none folders = folders
add_keep_folder (some dir) folders = set_insert (as_folder dir) folders

-- `to_lowercase` follows the tables of Unicode.
module _ (to_lowercase : Text → Text) where
  -- The loop over the segments of a key; the last one is the name of the object.
  unfoldable pub add_segments : Text → Text → List Text → List Text → List Text
  add_segments q acc [] folders = folders
  add_segments q acc (seg ∷ []) folders = folders
  add_segments q acc (seg ∷ next ∷ segs) folders =
      let dir = acc ++ seg ++ slash ∷ [] in
      add_segments q dir (next ∷ segs)
        (if contains q (to_lowercase seg) then set_insert dir folders else folders)

  unfoldable pub search_folders : Text → List ObjectRecord → List Text → List Text
  search_folders q [] folders = folders
  search_folders q (row ∷ rows) folders = search_folders q rows (
      if text_beq (base_name row.original_filename) keep
      then add_keep_folder (strip_suffix keep row.original_filename) folders
      else add_segments q [] (split slash row.original_filename) folders)

  unfoldable pub search_folder_prefixes : Text → List ObjectRecord → List Text
  search_folder_prefixes q rows = search_folders (to_lowercase q) rows []

-- `find`, counting characters
unfoldable pub find : Text → Text → Option ℕ
find d [] = if is_empty d then some 0 else none
find d (c ∷ s) =
    let rest = find d s in
    if starts_with d (c ∷ s) then some 0 else elim rest [ none ↦ none | some n ↦ some (n + 1) ]

-- What the loop over the rows makes of a key: a folder below the prefix, an object at this level,
-- or nothing.
pub data Entry : Type 0 where
  below : Text → Entry
  here skipped : Entry

abbrev classify_rest : Text → Text → Text → Option ℕ → Entry
classify_rest prefix rest key (some idx) = below (prefix ++ take (idx + 1) rest)
classify_rest prefix rest key none = if text_beq (base_name key) keep then skipped else here

unfoldable pub classify : Text → Text → Text → Entry
classify prefix delimiter key = elim (strip_prefix prefix key) [
  | none ↦ skipped
  | some rest ↦ classify_rest prefix rest key (find delimiter rest)
]

abbrev add_common : Entry → List Text → List Text
add_common (below t) common = set_insert t common
add_common _ common = common

unfoldable pub level_prefixes : Text → Text → List ObjectRecord → List Text → List Text
level_prefixes prefix delimiter [] common = common
level_prefixes prefix delimiter (row ∷ rows) common =
    level_prefixes prefix delimiter rows
      (add_common (classify prefix delimiter row.original_filename) common)

abbrev pub is_here : Entry → Bool
is_here here = true
is_here _ = false

unfoldable pub level_objects : Text → Text → List ObjectRecord → List ObjectRecord
level_objects prefix delimiter rows =
    select (λ (row : ObjectRecord). is_here (classify prefix delimiter row.original_filename)) rows

-- The rows of the query, in one bucket or in all.
abbrev pub matching_rows : Text → Option ℕ → Db → List ObjectRecord
matching_rows pattern_text bucket_id db = order_by name_leb (
    select
      (λ (o : ObjectRecord).
        is_active o
        && (elim bucket_id [ none ↦ true | some b ↦ nat_beq o.bucket_id b ]
            && like (some backslash) pattern_text o.original_filename))
      db.objects)

abbrev pub not_keep : ObjectRecord → Bool
not_keep o = not (text_beq (base_name o.original_filename) keep)

-- `search.filter(|s| !s.is_empty())`: empty for none.
abbrev query : Option Text → Text
query none = []
query (some q) = q

module _ (to_lowercase : Text → Text) where
  abbrev list_found : Text → Text → Text → List ObjectRecord → ℤ → ℤ → PrefixListResult
  list_found q prefix delimiter rows offset limit =
      page_folder_object_lists
        (map (λ cp. folder_entry_from_rows cp rows) (search_folder_prefixes to_lowercase q rows))
        (select not_keep rows) prefix delimiter offset limit

  unfoldable pub list_objects_with_prefix :
      Text → Text → Option Text → Option ℕ → ℤ → ℤ → Db → PrefixListResult
  list_objects_with_prefix prefix delimiter asked bucket_id offset limit db =
      let rows = matching_rows (like_escape prefix ++ percent ∷ []) bucket_id db in
      let q = query asked in
      if not (is_empty q)
      then list_found q prefix delimiter
          (matching_rows (percent ∷ like_escape q ++ percent ∷ []) bucket_id db) offset limit
      else if is_empty delimiter
      then page_folder_object_lists [] (select not_keep rows) prefix delimiter offset limit
      else page_folder_object_lists
          (map (λ cp. folder_entry_from_rows cp rows) (level_prefixes prefix delimiter rows []))
          (level_objects prefix delimiter rows) prefix delimiter offset limit
