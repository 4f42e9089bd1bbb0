-- ===== src/Objects/Etags.antt =====
-- src/db/repository.rs and src/server/etag_rehash.rs: plain listings, totals, and the background task
-- that hashes the objects of a bucket again.
pub mod Progress
use my_s.Common.{
  Bool, List, Option, Text, [], any, codes, if◌then◌else◌, is_empty, leb, length, map, nat_beq,
  none, not, order_by, select, some, sum, text_beq, update, ℕ, ◌&&◌, ◌++◌, ◌+◌, ◌||◌, ◌∷◌,
}
use my_s.Database.{Db, Exec, bucket_not_found, err, object_not_found, ok, ◌>>◌}
use my_s.Models.{BucketRecord, EtagType, ObjectRecord, OutboxRow, is_live}
use my_s.Objects.Rows.{has_object_id, is_active}
use my_s.Rbac.Permissions.{has_bucket_id}
use my_s.Replication.Outbox.{enqueue_put_for_active_peers}
use my_s.Sql.Like.{like, percent}

-- ORDER BY date_uploaded DESC
abbrev pub latest : ObjectRecord → ObjectRecord → Bool
latest a b = leb b.date_uploaded a.date_uploaded

unfoldable pub list_objects : Db → List ObjectRecord
list_objects db = order_by latest (select is_active db.objects)

unfoldable pub list_objects_in_bucket : ℕ → Db → List ObjectRecord
list_objects_in_bucket bucket_id db =
    order_by latest (select (λ o. nat_beq o.bucket_id bucket_id && is_active o) db.objects)

-- The bytes and the number of the active objects, and the number of live jobs.
unfoldable pub stats : Db → ℕ × ℕ × ℕ
stats db = (
  sum (λ (o : ObjectRecord). o.filesize_bytes) (select is_active db.objects),
  length (select is_active db.objects),
  length (select (λ (r : OutboxRow). is_live r.status) db.outbox),
)

abbrev digest_entry : ObjectRecord → Text × Text
digest_entry o = (o.filepath, o.etag)

-- LIKE without ESCAPE; the paths are unique, so the map has one pair for each row.
unfoldable pub digest_map : Text → Db → List (Text × Text)
digest_map prefix db =
    if is_empty prefix
    then map digest_entry (select is_active db.objects)
    else map digest_entry (
        select
          (λ (o : ObjectRecord).
            is_active o
            && (like none (prefix ++ percent ∷ []) o.filepath
                || like none (prefix ++ percent ∷ []) o.original_filename))
          db.objects)

abbrev pub set_bucket : ℕ → (BucketRecord → BucketRecord) → Exec Db (Unit {0})
set_bucket bucket_id f db =
    if any (has_bucket_id bucket_id) db.buckets
    then (ok tt, record db { buckets = update (has_bucket_id bucket_id) f db.buckets })
    else (err bucket_not_found, db)

unfoldable pub set_bucket_etag_type : ℕ → EtagType → Exec Db (Unit {0})
set_bucket_etag_type bucket_id etag_type =
    set_bucket bucket_id (λ b. record b { etag_type = etag_type })

abbrev pub started : ℕ → BucketRecord → BucketRecord
started total b = record b {
  etag_rehash_status = some (codes "running");
  etag_rehash_processed = 0;
  etag_rehash_total = total;
  etag_rehash_error = none;
}

unfoldable pub begin_bucket_etag_rehash : ℕ → ℕ → Exec Db (Unit {0})
begin_bucket_etag_rehash bucket_id total = set_bucket bucket_id (started total)

abbrev pub bumped : BucketRecord → BucketRecord
bumped b = record b { etag_rehash_processed = b.etag_rehash_processed + 1 }

unfoldable pub bump_bucket_etag_rehash_processed : ℕ → Db → Db
bump_bucket_etag_rehash_processed bucket_id db = record db {
  buckets = update (has_bucket_id bucket_id) bumped db.buckets;
}

abbrev pub finished : Text → Option Text → BucketRecord → BucketRecord
finished status error b = record b { etag_rehash_status = some status; etag_rehash_error = error }

unfoldable pub finish_bucket_etag_rehash : ℕ → Text → Option Text → Db → Db
finish_bucket_etag_rehash bucket_id status error db = record db {
  buckets = update (has_bucket_id bucket_id) (finished status error) db.buckets;
}

abbrev set_etag : ℕ → EtagType → Text → ObjectRecord → ObjectRecord
set_etag now etag_type etag o = record o { etag_type = etag_type; etag = etag; date_modified = now }

abbrev active_id : ℕ → ObjectRecord → Bool
active_id id o = has_object_id id o && is_active o

unfoldable pub update_object_etag : ℕ → ℕ → EtagType → Text → Exec Db (Unit {0})
update_object_etag now object_id etag_type etag db =
    if any (active_id object_id) db.objects
    then (
      ok tt,
      record db { objects = update (active_id object_id) (set_etag now etag_type etag) db.objects },
    )
    else (err object_not_found, db)

-- An active object of the bucket that is no folder marker.
abbrev pub is_hashed : ℕ → ObjectRecord → Bool
is_hashed bucket_id o =
    nat_beq o.bucket_id bucket_id
    && (is_active o
        && (not (text_beq o.original_filename (codes ".keep"))
            && not (like none (codes "%/.keep") o.original_filename)))

unfoldable pub count_active_objects_in_bucket : ℕ → Db → ℕ
count_active_objects_in_bucket bucket_id db = length (select (is_hashed bucket_id) db.objects)

unfoldable pub list_objects_for_etag_rehash : ℕ → Db → List ObjectRecord
list_objects_for_etag_rehash bucket_id db =
    order_by latest (select (is_hashed bucket_id) db.objects)

-- `hash` reads a stored file and hashes it: none if that fails.
module _ (hash : Text → EtagType → Option Text) (now : ℕ) (node_id : Text) (bucket_id : ℕ)
    (etag_type : EtagType) where
  abbrev pub store_etag : ObjectRecord → Option Text → Db → Db
  store_etag o none db = db
  store_etag o (some etag) db =
      ((update_object_etag now o.id etag_type etag
          >> enqueue_put_for_active_peers now o.id o.filepath etag node_id)
        db).1

  unfoldable pub rehash_one : ObjectRecord → Db → Db
  rehash_one o db = store_etag o (hash o.filepath etag_type) db

  -- The loop over the objects: the progress advances whether the object was hashed or not.
  unfoldable pub rehash_all : List ObjectRecord → Db → Db
  rehash_all [] db = db
  rehash_all (o ∷ os) db =
      rehash_all os (bump_bucket_etag_rehash_processed bucket_id (rehash_one o db))

  unfoldable pub run_bucket_rehash : Db → Db
  run_bucket_rehash db =
      finish_bucket_etag_rehash bucket_id (codes "done") none
        (rehash_all (list_objects_for_etag_rehash bucket_id db) db)
