-- ===== src/Objects/Rows/Lookup.antt =====
-- src/db/repository.rs: a put object is found under its key.
use my_s.Common.{
  List, Text, [], any, arith, false, first, if◌then◌else◌, nat_beq, refl, some, text_beq,
  text_beq_iff, true, ℕ, ◌&&◌, ◌++◌, ◌∷◌, ◌≡◌,
}
use my_s.Database.{Db, ok}
use my_s.Models.{EtagType, ObjectRecord}
use my_s.Objects.Rows.{
  get_object_by_filename_in_bucket, has_active_key, insert_object_tx, is_active, uploaded_row,
}
use my_s.Objects.Rows.Unique.{IsValid, insert_row-IsValid, text_beq_sym}

same_key :
    (key key' : Text) (b b' : ℕ) (l : List ObjectRecord)
    → (nat_beq b b' && text_beq key key') ≡ true
    → any (has_active_key b key) l ≡ false
    → any (has_active_key b' key') l ≡ false
unfolding any
same_key key key' b b' [] e h = refl
same_key key key' b b' (x ∷ l) e h =
    ground (arith, text_beq_iff key key', text_beq_sym key key', same_key key key' b b' l)

lookup_appended :
    (x : ObjectRecord) (key' : Text) (b' : ℕ) (l : List ObjectRecord)
    → is_active x ≡ true
    → any (has_active_key x.bucket_id x.original_filename) l ≡ false
    → first (has_active_key b' key') (l ++ x ∷ []) ≡ (
        if nat_beq x.bucket_id b' && text_beq x.original_filename key'
        then some x
        else first (has_active_key b' key') l)
unfolding first any
lookup_appended x key' b' [] a h = ground arith
lookup_appended x key' b' (y ∷ l) a h =
    ground
      (arith, same_key x.original_filename key' x.bucket_id b' (y ∷ l), lookup_appended x key' b' l)

-- When `insert_object_tx` succeeds, a lookup of an active key in a bucket finds the uploaded row if
-- the key and the bucket are its own, and else what it found before.
pub get_object_by_filename_in_bucket-insert_object_tx :
    (now : ℕ) (key path file_format : Text) (size : ℕ) (etag_type : EtagType) (etag : Text) (b : ℕ)
    (db : Db) (id : ℕ)
    → (insert_object_tx now key path file_format size etag_type etag b db).0 ≡ ok id
    → (key' : Text) (b' : ℕ)
    → get_object_by_filename_in_bucket key' b'
        (insert_object_tx now key path file_format size etag_type etag b db).1
      ≡ (if nat_beq b b' && text_beq key key'
          then some (uploaded_row id now key path file_format size etag_type etag b)
          else get_object_by_filename_in_bucket key' b' db)
unfolding insert_object_tx get_object_by_filename_in_bucket
get_object_by_filename_in_bucket-insert_object_tx now key path file_format size etag_type etag b db
      id h key' b' =
    ground (
      arith,
      lookup_appended (uploaded_row db.next_object now key path file_format size etag_type etag b)
          key' b' db.objects,
    )

-- `insert_object_tx` keeps the constraints of the table and the next id new.
pub insert_object_tx-IsValid :
    (now : ℕ) (key path file_format : Text) (size : ℕ) (etag_type : EtagType) (etag : Text) (b : ℕ)
    (db : Db)
    → IsValid db
    → IsValid (insert_object_tx now key path file_format size etag_type etag b db).1
unfolding insert_object_tx
insert_object_tx-IsValid now key path file_format size etag_type etag b db v =
    insert_row-IsValid (uploaded_row db.next_object now key path file_format size etag_type etag b)
      db refl v
