-- ===== src/Objects/Bin.antt =====
-- src/db/repository.rs: the recycle bin.
pub mod Validity
pub mod Lookup
-- SET deleted_at = CURRENT_TIMESTAMP, date_modified = CURRENT_TIMESTAMP
use my_s.Common.{
  Bool, List, Option, Text, any, false, first, if◌then◌else◌, leb, nat_beq, none, not, order_by,
  select, some, true, update, ℕ, ◌&&◌, ◌/◌,
}
use my_s.Database.{
  Db, Exec, context, err, gets, guard, key_already_exists, not_in_recycle_bin, object_not_found, ok,
  unique_violation, ◌>>=◌, ◌>>◌,
}
use my_s.Models.{ObjectRecord}
use my_s.Objects.Rows.{get_object_by_id, has_active_key, has_active_name, has_object_id, is_active}

abbrev pub to_bin : ℕ → ObjectRecord → ObjectRecord
to_bin now o = record o { deleted_at = some now; date_modified = now }

-- SET deleted_at = NULL, date_modified = CURRENT_TIMESTAMP
abbrev pub from_bin : ℕ → ObjectRecord → ObjectRecord
from_bin now o = record o { deleted_at = none; date_modified = now }

abbrev pub matches_bucket : Option ℕ → Text → ObjectRecord → Bool
matches_bucket (some bucket_id) filename = has_active_key bucket_id filename
matches_bucket none filename = has_active_name filename

unfoldable pub soft_delete_object_by_filename : ℕ → Text → Option ℕ → Exec Db (Option ObjectRecord)
soft_delete_object_by_filename now filename bucket_id db =
    elim (first (matches_bucket bucket_id filename) db.objects) [
      | none ↦ (ok none, db)
      | some r ↦
          (ok (some r), record db { objects = update (has_object_id r.id) (to_bin now) db.objects })
    ]

-- ORDER BY deleted_at; only rows that have one are sorted
abbrev pub deleted_leb : ObjectRecord → ObjectRecord → Bool
deleted_leb a b = elim a.deleted_at [
  | none ↦ true
  | some s ↦ elim b.deleted_at [ none ↦ false | some t ↦ leb s t ]
]

abbrev pub keep_buckets : Option (List ℕ) → List ObjectRecord → List ObjectRecord
keep_buckets none rows = rows
keep_buckets (some ids) rows = select (λ (r : ObjectRecord). any (nat_beq r.bucket_id) ids) rows

unfoldable pub list_deleted_objects : Option (List ℕ) → Db → List ObjectRecord
list_deleted_objects bucket_ids db =
    keep_buckets bucket_ids
      (order_by (λ a b. deleted_leb b a) (select (λ o. not (is_active o)) db.objects))

-- deleted_at <= ?1, which compares texts: `deleted_at` is stored as `YYYY-MM-DD hh:mm:ss`, and the
-- bound value is `YYYY-MM-DDThh:mm:ss…`. On different days the dates decide; on the same day the space
-- comes before the `T`, whatever the times of the day are.
abbrev pub day_of : ℕ → ℕ
day_of t = t / 86400

abbrev pub past_retention : ℕ → ObjectRecord → Bool
past_retention older_than o = elim o.deleted_at [
  | none ↦ false
  | some t ↦ leb (day_of t) (day_of older_than)
]

unfoldable pub list_expired_deleted_objects : ℕ → Db → List ObjectRecord
list_expired_deleted_objects older_than db =
    order_by deleted_leb (select (past_retention older_than) db.objects)

-- An active row other than the given one that has its key.
abbrev pub conflicts : ObjectRecord → ObjectRecord → Bool
conflicts r o = has_active_key r.bucket_id r.original_filename o && not (nat_beq o.id r.id)

-- The UPDATE of `restore_object`, with the unique index it is checked against.
abbrev pub set_restored : ℕ → ObjectRecord → Exec Db (Unit {0})
set_restored now r db =
    if any (conflicts r) db.objects
    then (err unique_violation, db)
    else (ok tt, record db { objects = update (has_object_id r.id) (from_bin now) db.objects })

unfoldable pub restore_object : ℕ → ℕ → Exec Db ObjectRecord
restore_object now id = do
  r ← λ db. context (get_object_by_id id db) object_not_found db
  guard (not (is_active r)) not_in_recycle_bin
  conflict ← gets (λ db.
      any (λ o. has_active_key r.bucket_id r.original_filename o && not (nat_beq o.id id))
        db.objects)
  guard (not conflict) key_already_exists
  set_restored now r
  λ db. context (get_object_by_id id db) object_not_found db
