-- ===== src/Storage/Reconcile.antt =====
-- src/storage/reconcile.rs: the integrity of the stored files against the rows. The disk is the list
-- of the names of the regular files in `objects/`, each once; a file that cannot be unlinked is one
-- for which `unlinks` is false. The failures of reading the directory are left out.
pub mod Orphans
pub mod Report
use my_s.Common.{
  Bool, List, Text, [], any, codes, contains_char, delete, false, if◌then◌else◌, length, map, none,
  not, order_by, select, slash, some, starts_with, strip_prefix, suc, text_beq, text_leb, trim,
  true, zero, ℕ, ◌&&◌, ◌++◌, ◌-◌, ◌∷◌,
}
use my_s.Database.{Db}
use my_s.Models.{ObjectRecord}
use my_s.Objects.Rows.{is_active}

pub record IntegrityReport : Type 0 where
  pub db_rows : ℕ
  pub db_active : ℕ
  pub db_recycled : ℕ
  pub disk_files_before : ℕ
  pub disk_files_after : ℕ
  pub active_ok : ℕ
  pub recycle_ok : ℕ
  pub orphans_removed : List Text
  pub orphans_removed_count : ℕ
  pub missing_active : List Text
  pub missing_active_count : ℕ
  pub missing_recycle : List Text
  pub missing_recycle_count : ℕ
  pub repaired : Bool

pub record DbObjectFile : Type 0 where
  pub filepath : Text
  pub deleted : Bool

abbrev pub objects_prefix : Text
objects_prefix = codes "objects/"

abbrev relative : Text → Text
relative trimmed = elim (strip_prefix objects_prefix trimmed) [
  | some rest ↦ objects_prefix ++ rest
  | none ↦ if contains_char slash trimmed then trimmed else objects_prefix ++ trimmed
]

-- `trim_start_matches` of a text: the prefix goes as often as it is there.
unfoldable pub drop_dot_slash : ℕ → Text → Text
drop_dot_slash zero s = s
drop_dot_slash (suc fuel) s = elim (strip_prefix (codes "./") s) [
  | none ↦ s
  | some rest ↦ drop_dot_slash fuel rest
]

unfoldable pub normalize_object_rel : Text → Text
normalize_object_rel path = relative (drop_dot_slash (length path) (trim path))

abbrev pub db_file : ObjectRecord → DbObjectFile
db_file o = record { filepath = normalize_object_rel o.filepath; deleted = not (is_active o) }

unfoldable pub list_db_object_files : Db → List DbObjectFile
list_db_object_files db = map db_file db.objects

abbrev is_hidden : Text → Bool
is_hidden name = starts_with (codes ".") name

unfoldable pub list_disk_object_files : List Text → List Text
list_disk_object_files disk =
    order_by text_leb
      (map (λ name. objects_prefix ++ name) (select (λ name. not (is_hidden name)) disk))

abbrev pub has_path : Text → DbObjectFile → Bool
has_path path r = text_beq r.filepath path

abbrev pub is_listed : List Text → Text → Bool
is_listed disk path = any (λ f. text_beq f path) disk

abbrev pub count : {A : Type 0} → (A → Bool) → List A → ℕ
count p rows = length (select p rows)

unfoldable pub orphans : List DbObjectFile → List Text → List Text
orphans db_files disk = order_by text_leb (select (λ path. not (any (has_path path) db_files)) disk)

abbrev pub is_missing : List Text → Bool → DbObjectFile → Bool
is_missing disk deleted r =
    not (is_listed disk r.filepath) && (if deleted then r.deleted else not r.deleted)

abbrev pub is_present : List Text → Bool → DbObjectFile → Bool
is_present disk deleted r =
    is_listed disk r.filepath && (if deleted then r.deleted else not r.deleted)

abbrev paths : List DbObjectFile → List Text
paths rows = map (λ (r : DbObjectFile). r.filepath) rows

unfoldable pub missing_files : Bool → List DbObjectFile → List Text → List Text
missing_files deleted db_files disk =
    order_by text_leb (paths (select (is_missing disk deleted) db_files))

abbrev pub cap : ℕ
cap = 50

-- `truncate`
unfoldable pub truncate : {A : Type 0} → ℕ → List A → List A
truncate zero xs = []
truncate (suc n) [] = []
truncate (suc n) (x ∷ xs) = x ∷ truncate n xs

-- The report for the paths that were removed and the count of the files after.
abbrev pub report : List DbObjectFile → List Text → List Text → ℕ → Bool → IntegrityReport
report db_files disk removed disk_after repaired = record {
  db_rows = length db_files;
  db_active = count (λ (r : DbObjectFile). not r.deleted) db_files;
  db_recycled = length db_files - count (λ (r : DbObjectFile). not r.deleted) db_files;
  disk_files_before = length disk;
  disk_files_after = disk_after;
  active_ok = count (is_present disk false) db_files;
  recycle_ok = count (is_present disk true) db_files;
  orphans_removed = truncate cap removed;
  orphans_removed_count = length removed;
  missing_active = truncate cap (missing_files false db_files disk);
  missing_active_count = length (missing_files false db_files disk);
  missing_recycle = truncate cap (missing_files true db_files disk);
  missing_recycle_count = length (missing_files true db_files disk);
  repaired = repaired;
}

-- Nothing is deleted: the orphans are those that a repair would remove.
unfoldable pub inspect : Db → List Text → IntegrityReport
inspect db disk =
    let db_files = list_db_object_files db in
    let listed = list_disk_object_files disk in
    report db_files listed (orphans db_files listed) (length listed) false

abbrev pub file_at : Text → Text → Bool
file_at rel name = text_beq (objects_prefix ++ name) rel

module _ (unlinks : Text → Bool) where
  -- The loop over the orphans: those that were unlinked, and the files that are left.
  unfoldable pub unlink_orphans : List Text → List Text → List Text × List Text
  unlink_orphans [] disk = ([], disk)
  unlink_orphans (rel ∷ rels) disk =
      let (removed, rest) =
        unlink_orphans rels (if unlinks rel then delete (file_at rel) disk else disk) in
      if unlinks rel then (rel ∷ removed, rest) else (removed, rest)

  unfoldable pub reconcile : Db → List Text → IntegrityReport × List Text
  reconcile db disk =
      let db_files = list_db_object_files db in
      let listed = list_disk_object_files disk in
      let (removed, rest) = unlink_orphans (orphans db_files listed) disk in
      (report db_files listed removed (length (list_disk_object_files rest)) true, rest)

unfoldable pub count_disk_files : List Text → ℕ
count_disk_files disk = length (list_disk_object_files disk)
