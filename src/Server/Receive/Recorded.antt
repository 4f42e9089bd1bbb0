-- ===== src/Server/Receive/Recorded.antt =====
-- src/cluster/grpc_server.rs and src/db/repository.rs: the row of an object that is received twice.
use my_s.Common.{
  Option, Option-cases, Text, [], any, any-append, ap, arith, first, inl, inr, none, refl, some,
  sym, text_beq_refl, true, ℕ, ◌∙◌, ◌∷◌, ◌≡◌,
}
use my_s.Database.{Db, Result, check_violation, err, ok}
use my_s.Models.{BucketRecord, EtagType, ObjectRecord, parse_etag_type}
use my_s.Objects.Rows.{coalesce, has_filepath, insert_object_idempotent, insert_row}
use my_s.Rbac.Buckets.{ensure_bucket, get_bucket_by_name, has_name}
use my_s.Server.Blobs.{StoredObject}
use my_s.Server.Receive.{ObjectMetadata, record_received, target_bucket}

insert_row-stored :
    (o : ObjectRecord) (db : Db) (id : ℕ)
    → (insert_row o db).0 ≡ ok id
    → any (has_filepath o.filepath) (insert_row o db).1.objects ≡ true
unfolding any
insert_row-stored o db id h =
    ground
      (arith, text_beq_refl o.filepath, any-append (has_filepath o.filepath) db.objects (o ∷ []))

insert_object_idempotent-stored :
    (now : ℕ) (key path format : Text) (size : ℕ) (t : Text) (etag : Text) (up mod' : Option ℕ)
    (b : ℕ) (db : Db)
    → (let r = insert_object_idempotent now key path format size t etag up mod' b db in
        r.0 ≡ ok tt → (any (has_filepath path) r.1.objects ≡ true) × (r.1.buckets ≡ db.buckets))
unfolding insert_object_idempotent
insert_object_idempotent-stored now key path format size t etag up mod' b db h =
    elim (Option-cases (parse_etag_type t)) [
      | inl e ↦ ground (arith, e)
      | inr (known, e) ↦ ground (
        arith,
        e,
        insert_row-stored
            (record {
              id = db.next_object;
              original_filename = key;
              filepath = path;
              file_format = format;
              filesize_bytes = size;
              etag_type = known;
              etag = etag;
              date_uploaded = coalesce up now;
              date_modified = coalesce mod' now;
              bucket_id = b;
              deleted_at = none;
            })
            db db.next_object,
      )
    ]

abbrev pub known_type : Option EtagType → Result (Unit {0})
known_type none = err check_violation
known_type (some t) = ok tt

insert_object_idempotent-again :
    (now : ℕ) (key path format : Text) (size : ℕ) (t : Text) (etag : Text) (up mod' : Option ℕ)
    (b : ℕ) (db : Db)
    → any (has_filepath path) db.objects ≡ true
    → insert_object_idempotent now key path format size t etag up mod' b db
      ≡ (known_type (parse_etag_type t), db)
unfolding insert_object_idempotent
insert_object_idempotent-again now key path format size t etag up mod' b db h =
    elim (Option-cases (parse_etag_type t)) [
      | inl e ↦ rw (insert_object_idempotent, e) refl
      | inr (known, e) ↦ rw (insert_object_idempotent, e, h) refl
    ]

-- In a bucket that is known nothing but the object is inserted.
record_received-known :
    (now : ℕ) (m : ObjectMetadata) (stored : StoredObject) (db : Db) (b : BucketRecord)
    → get_bucket_by_name (target_bucket m.bucket_name) db ≡ some b
    → record_received now m stored db
      ≡ insert_object_idempotent now m.original_filename stored.filepath m.file_format
          stored.filesize_bytes m.etag_type stored.etag m.date_uploaded m.date_modified b.id db
unfolding record_received ensure_bucket
record_received-known now m stored db b h = rw h refl

same_buckets :
    (name : Text) (x y : Db)
    → x.buckets ≡ y.buckets
    → get_bucket_by_name name x ≡ get_bucket_by_name name y
unfolding get_bucket_by_name
same_buckets name x y h = ap (λ l. first (has_name name) l) h

-- Once a row of the path has been inserted into a bucket that is known, another insertion for the path
-- and the bucket leaves the database as it is.
pub record_received-again :
    (now later : ℕ) (m m' : ObjectMetadata) (stored stored' : StoredObject) (db : Db)
    (b : BucketRecord)
    → get_bucket_by_name (target_bucket m.bucket_name) db ≡ some b
    → (record_received now m stored db).0 ≡ ok tt
    → stored'.filepath ≡ stored.filepath
    → target_bucket m'.bucket_name ≡ target_bucket m.bucket_name
    → (let db' = (record_received now m stored db).1 in
        record_received later m' stored' db' ≡ (known_type (parse_etag_type m'.etag_type), db'))
record_received-again now later m m' stored stored' db b g h k n =
    let r = record_received now m stored db in
    let e = record_received-known now m stored db b g in
    let (held, kept) =
      insert_object_idempotent-stored now m.original_filename stored.filepath m.file_format
        stored.filesize_bytes m.etag_type stored.etag m.date_uploaded m.date_modified b.id db
        (sym (ap (λ x. x.0) e) ∙ h) in
    record_received-known later m' stored' r.1 b (
      ap (λ t. get_bucket_by_name t r.1) n
      ∙ same_buckets (target_bucket m.bucket_name) r.1 db (ap (λ x. x.1.buckets) e ∙ kept)
      ∙ g)
    ∙ insert_object_idempotent-again later m'.original_filename stored'.filepath m'.file_format
        stored'.filesize_bytes m'.etag_type stored'.etag m'.date_uploaded m'.date_modified b.id r.1
        (ap (λ p. any (has_filepath p) r.1.objects) k
          ∙ ap (λ x. any (has_filepath stored.filepath) x.1.objects) e
          ∙ held)
