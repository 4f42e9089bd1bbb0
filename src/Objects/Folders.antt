-- ===== src/Objects/Folders.antt =====
-- src/db/repository.rs: folders, which are prefixes of keys.
pub mod Renames
pub mod Prefixes
use my_s.Common.{
  Bool, List, Option, Text, [], any, false, first, if◌then◌else◌, leb, length, min, nat_beq, none,
  not, order_by, select, some, strip_prefix, sum, text_beq, text_leb, update, ℕ, ◌&&◌, ◌++◌, ◌∷◌,
}
use my_s.Database.{
  Db, Exec, Result, err, folder_empty, gets, guard, ok, pure, target_key_exists, transaction,
  unique_violation, ◌>>=◌, ◌>>◌,
}
use my_s.Models.{ObjectRecord}
use my_s.Objects.Bin.{to_bin}
use my_s.Objects.Rows.{has_active_key, has_object_id, is_active}
use my_s.Sql.Like.{backslash, like, like_escape, percent}

pub record FolderEntry : Type 0 where
  pub prefix : Text
  pub date_created : Option ℕ
  pub date_modified : Option ℕ
  pub total_bytes : ℕ
  pub object_count : ℕ

-- MIN and MAX of a column: NULL without rows.
abbrev pub least : Option ℕ → ℕ → ℕ
least none t = t
least (some s) t = min s t

abbrev pub max_time : ℕ → ℕ → ℕ
max_time s t = if leb s t then t else s

abbrev pub greatest : Option ℕ → ℕ → ℕ
greatest none t = t
greatest (some s) t = max_time s t

unfoldable pub min_of : (ObjectRecord → ℕ) → List ObjectRecord → Option ℕ
min_of f [] = none
min_of f (o ∷ os) = some (least (min_of f os) (f o))

unfoldable pub max_of : (ObjectRecord → ℕ) → List ObjectRecord → Option ℕ
max_of f [] = none
max_of f (o ∷ os) = some (greatest (max_of f os) (f o))

-- original_filename LIKE 'prefix%' ESCAPE '\' in the active rows of a bucket
abbrev pub under_prefix : ℕ → Text → ObjectRecord → Bool
under_prefix bucket_id prefix o =
    is_active o
    && (nat_beq o.bucket_id bucket_id
        && like (some backslash) (like_escape prefix ++ percent ∷ []) o.original_filename)

unfoldable pub folder_stats : ℕ → Text → Db → FolderEntry
folder_stats bucket_id prefix db =
    let rows = select (under_prefix bucket_id prefix) db.objects in
    record {
      prefix = prefix;
      date_created = min_of (λ o. o.date_uploaded) rows;
      date_modified = max_of (λ o. o.date_modified) rows;
      total_bytes = sum (λ (o : ObjectRecord). o.filesize_bytes) rows;
      object_count = length rows;
    }

abbrev pub name_leb : ObjectRecord → ObjectRecord → Bool
name_leb a b = text_leb a.original_filename b.original_filename

unfoldable pub list_keys_under_prefix : ℕ → Text → Db → List ObjectRecord
list_keys_under_prefix bucket_id prefix db =
    order_by name_leb (select (under_prefix bucket_id prefix) db.objects)

-- Returns the number of rows changed.
unfoldable pub soft_delete_prefix : ℕ → ℕ → Text → Exec Db ℕ
soft_delete_prefix now bucket_id prefix db = (
  ok (length (select (under_prefix bucket_id prefix) db.objects)),
  record db { objects = update (under_prefix bucket_id prefix) (to_bin now) db.objects },
)

-- The loop that collects the new keys; a key that does not start with the prefix itself is left out.
unfoldable pub plan_renames : ℕ → Text → Text → List ObjectRecord → Db → Result (List (ℕ × Text))
plan_renames bucket_id from_prefix to_prefix [] db = ok []
plan_renames bucket_id from_prefix to_prefix (row ∷ rows) db =
    let others = plan_renames bucket_id from_prefix to_prefix rows db in
    elim (strip_prefix from_prefix row.original_filename) [
      | none ↦ others
      | some rest ↦
          if any (has_active_key bucket_id (to_prefix ++ rest)) db.objects
          then err target_key_exists
          else elim others [
            | ok renames ↦ ok ((row.id, to_prefix ++ rest) ∷ renames)
            | err e ↦ err e
          ]
    ]

abbrev pub rename_row : ℕ → Text → ObjectRecord → ObjectRecord
rename_row now new_key o = record o { original_filename = new_key; date_modified = now }

-- The row that an UPDATE of a key would come to share its active key with.
abbrev pub taken : ℕ → Text → List ObjectRecord → Bool
taken id new_key rows =
    elim (first (λ (o : ObjectRecord). has_object_id id o && is_active o) rows) [
      | none ↦ false
      | some r ↦
          any (λ (o : ObjectRecord). has_active_key r.bucket_id new_key o && not (nat_beq o.id id))
            rows
    ]

abbrev pub set_key : ℕ → ℕ → Text → Exec Db (Unit {0})
set_key now id new_key db = if taken id new_key db.objects then (err unique_violation, db) else (
  ok tt,
  record db {
    objects =
        update (λ (o : ObjectRecord). has_object_id id o && is_active o) (rename_row now new_key)
          db.objects;
  },
)

unfoldable pub apply_renames : ℕ → List (ℕ × Text) → Exec Db (Unit {0})
apply_renames now [] = pure tt
apply_renames now ((id, new_key) ∷ renames) = set_key now id new_key >> apply_renames now renames

unfoldable pub commit_renames : ℕ → List (ℕ × Text) → Exec Db ℕ
commit_renames now renames = transaction (apply_renames now renames) >> pure (length renames)

unfoldable pub rename_prefix : ℕ → ℕ → Text → Text → Exec Db ℕ
rename_prefix now bucket_id from_prefix to_prefix =
    if text_beq from_prefix to_prefix then pure 0 else do
      rows ← gets (list_keys_under_prefix bucket_id from_prefix)
      guard (not (nat_beq (length rows) 0)) folder_empty
      renames ← λ db. (plan_renames bucket_id from_prefix to_prefix rows db, db)
      commit_renames now renames
