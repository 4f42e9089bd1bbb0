-- ===== src/Server/Blobs/Kept.antt =====
-- src/server/s3_routes.rs: what an upload leaves behind.
use my_s.Common.{
  List, Option, Option-cases, Text, [], any, ap, arith, delete, first, if◌then◌else◌, inl, inr,
  nat_beq, none, not, true, false, Bool, refl, some, sub_ℕ, text_beq, text_beq_refl, ℕ, ◌&&◌, ◌∙◌,
  ◌∷◌, ◌≡◌,
}
use my_s.Database.{Db, Result, Result-cases, err, ok, transaction}
use my_s.Models.{ObjectRecord}
use my_s.Objects.Bin.{soft_delete_object_by_filename}
use my_s.Objects.Bin.Lookup.{get_object_by_filename_in_bucket-soft_delete}
use my_s.Objects.Rows.{
  get_object_by_filename_in_bucket, has_active_key, insert_object_tx, uploaded_row,
}
use my_s.Objects.Rows.Lookup.{get_object_by_filename_in_bucket-insert_object_tx}
use my_s.Objects.Rows.Unique.{IsValid}
use my_s.Replication.Nodes.{check_hard_quota}
use my_s.Replication.Outbox.{enqueue_for_active_peers}
use my_s.Server.Blobs.{
  EngineOutcome, broken_off, finished, not_begun, PutResponse, Store, StoredObject, answer,
  bucket_etag_type, check_then_put, default_bucket_id, given_or, put_in_bucket,
  put_object_keyed_in_bucket, put_stored, record_object, replace_object, size_of, stored_ok, unlink,
}

same_objects :
    (key : Text) (b : ℕ) (x y : Db)
    → x.objects ≡ y.objects
    → get_object_by_filename_in_bucket key b x ≡ get_object_by_filename_in_bucket key b y
unfolding get_object_by_filename_in_bucket
same_objects key b x y h = ap (λ l. first (has_active_key b key) l) h

record_object-ok :
    (now : ℕ) (key : Text) (stored : StoredObject) (b : ℕ) (node_id : Text) (db : Db) (id : ℕ)
    → (transaction (record_object now key stored b node_id) db).0 ≡ ok id
    → (let put =
          insert_object_tx now key stored.filepath stored.file_format stored.filesize_bytes
            stored.etag_type stored.etag b db in
        (put.0 ≡ ok id)
        × ((transaction (record_object now key stored b node_id) db).1.objects ≡ put.1.objects))
unfolding transaction record_object enqueue_for_active_peers
record_object-ok now key stored b node_id db id h =
    elim (Result-cases
      (insert_object_tx now key stored.filepath stored.file_format stored.filesize_bytes
        stored.etag_type stored.etag b db).0) [
          | inl (i, e) ↦ ground arith
          | inr (d, e) ↦ ground arith
        ]

abbrev pub row_of : ℕ → ℕ → Text → StoredObject → ℕ → ObjectRecord
row_of id now key stored b =
    uploaded_row id now key stored.filepath stored.file_format stored.filesize_bytes
      stored.etag_type stored.etag b

record_object-lookup :
    (now : ℕ) (key : Text) (stored : StoredObject) (b : ℕ) (node_id : Text) (db : Db) (id : ℕ)
    → (transaction (record_object now key stored b node_id) db).0 ≡ ok id
    → (key' : Text) (b' : ℕ)
    → get_object_by_filename_in_bucket key' b'
        (transaction (record_object now key stored b node_id) db).1
      ≡ (if nat_beq b b' && text_beq key key'
          then some (row_of id now key stored b)
          else get_object_by_filename_in_bucket key' b' db)
record_object-lookup now key stored b node_id db id h key' b' =
    let r = record_object-ok now key stored b node_id db id h in
    same_objects key' b' (transaction (record_object now key stored b node_id) db).1
      (insert_object_tx now key stored.filepath stored.file_format stored.filesize_bytes
        stored.etag_type stored.etag b db).1
      r.1
    ∙ get_object_by_filename_in_bucket-insert_object_tx now key stored.filepath stored.file_format
        stored.filesize_bytes stored.etag_type stored.etag b db id r.0 key' b'

replace_object-lookup :
    (now : ℕ) (key : Text) (stored : StoredObject) (b : ℕ) (node_id : Text) (db : Db)
    (files : List Text) (etag : Text)
    → IsValid db
    → (replace_object now key stored b node_id db files).0 ≡ stored_ok etag
    → (key' : Text) (b' : ℕ)
    → (id : ℕ) × (get_object_by_filename_in_bucket key' b'
          (replace_object now key stored b node_id db files).1.db
        ≡ (if nat_beq b b' && text_beq key key'
            then some (row_of id now key stored b)
            else get_object_by_filename_in_bucket key' b' db))
replace_object-lookup now key stored b node_id db files etag v h key' b' =
    elim (Result-cases
      (transaction (record_object now key stored b node_id)
        (soft_delete_object_by_filename now key (some b) db).1).0) [
          | inl (id, e) ↦ (
            id,
            ground (
              arith,
              record_object-lookup now key stored b node_id
                  (soft_delete_object_by_filename now key (some b) db).1 id e key' b',
              get_object_by_filename_in_bucket-soft_delete now key b db v key' b',
            ),
          )
          | inr (d, e) ↦ (0, ground arith)
        ]

-- If the constraints of the objects hold and an upload to a bucket is answered with success, then a
-- lookup of an active key in a bucket finds a row with the name, the file, the size and the etag
-- of the upload if the key and the bucket are its own, and else what it found before.
pub put_object_keyed_in_bucket-lookup :
    (now : ℕ) (key : Text) (stored : StoredObject) (b : ℕ) (node_id : Text) (s : Store)
    (etag : Text)
    → IsValid s.db
    → (put_object_keyed_in_bucket now key (finished stored) (some b) node_id s).0 ≡ stored_ok etag
    → (key' : Text) (b' : ℕ)
    → (id : ℕ) × (get_object_by_filename_in_bucket key' b'
          (put_object_keyed_in_bucket now key (finished stored) (some b) node_id s).1.db
        ≡ (if nat_beq b b' && text_beq key key'
            then some (row_of id now key stored b)
            else get_object_by_filename_in_bucket key' b' s.db))
unfolding put_object_keyed_in_bucket
put_object_keyed_in_bucket-lookup now key stored b node_id s etag v h key' b' =
    elim (Result-cases (bucket_etag_type b s.db)) [
      | inr (d, e) ↦ (0, ground arith)
      | inl (t, e) ↦
          elim (Result-cases (
            check_hard_quota b
              (sub_ℕ stored.filesize_bytes (size_of (get_object_by_filename_in_bucket key b s.db)))
              s.db)) [
                | inr (d, k) ↦ (0, ground arith)
                | inl (u, k) ↦
                    let r =
                      replace_object-lookup now key stored b node_id s.db
                        (stored.filepath ∷ s.files) etag v (ground (arith, h, e, k)) key' b' in
                    (r.0, ground (arith, e, k, r.1))
              ]
    ]

kept_files :
    (path : Text) (l : List Text) → any (λ f. text_beq f path) l ≡ false → unlink path l ≡ l
unfolding any delete
kept_files path [] h = refl
kept_files path (f ∷ l) h = ground (arith, kept_files path l)

unlinked :
    (path : Text) (l : List Text)
    → any (λ f. text_beq f path) l ≡ false
    → unlink path (path ∷ l) ≡ l
unfolding delete
unlinked path l h = ground (arith, text_beq_refl path, kept_files path l)

-- Whether the bucket of the upload is found, so that the engine is called.
abbrev pub known_bucket : Option ℕ → Db → Bool
known_bucket none db = false
known_bucket (some b) db = elim (bucket_etag_type b db) [ err e ↦ false | ok _ ↦ true ]

abbrev pub has_new_path : EngineOutcome → List Text → Bool
has_new_path (finished stored) files = not (any (λ f. text_beq f stored.filepath) files)
has_new_path _ files = true

-- The files with that of an upload to a bucket that is found.
abbrev pub files_after : EngineOutcome → PutResponse → List Text → List Text
files_after (finished stored) (stored_ok _) files = stored.filepath ∷ files
files_after (broken_off path) _ files = path ∷ files
files_after _ _ files = files

answer-files :
    (stored : StoredObject) (r : Result ℕ × Db) (files : List Text)
    → any (λ f. text_beq f stored.filepath) files ≡ false
    → (answer stored.filepath stored r (stored.filepath ∷ files)).1.files
      ≡ files_after
          (finished stored)
          (answer stored.filepath stored r (stored.filepath ∷ files)).0
          files
answer-files stored (ok id, db) files h = refl
answer-files stored (err e, db) files h = unlinked stored.filepath files h

put_stored-files :
    (now : ℕ) (key : Text) (outcome : EngineOutcome) (b : ℕ) (node_id : Text) (s : Store)
    → has_new_path outcome s.files ≡ true
    → (let r = put_stored now key outcome b node_id s in
        r.1.files ≡ files_after outcome r.0 s.files)
put_stored-files now key not_begun b node_id s h = refl
put_stored-files now key (broken_off path) b node_id s h = refl
put_stored-files now key (finished stored) b node_id s h =
    let r =
      transaction (record_object now key stored b node_id)
        (soft_delete_object_by_filename now key (some b) s.db).1 in
    let new : any (λ f. text_beq f stored.filepath) s.files ≡ false = ground arith in
    elim (Result-cases (
      check_hard_quota b
        (sub_ℕ stored.filesize_bytes (size_of (get_object_by_filename_in_bucket key b s.db)))
        s.db)) [
          | inr (d, k) ↦ ground (arith, k, unlinked stored.filepath s.files new)
          | inl (u, k) ↦
              rw (put_stored, check_then_put, files_after, k) (answer-files stored r s.files new)
        ]

-- An upload whose bucket is not found leaves the stored files as they were. Of any other whose file
-- has a new path, the file is added if the upload is answered with success, and if it is answered
-- with an error, the files are as they were; but if its stream breaks, which is answered with an
-- error, its partial file is added.
pub put_object_keyed_in_bucket-files :
    (now : ℕ) (key : Text) (outcome : EngineOutcome) (bucket_id : Option ℕ) (node_id : Text)
    (s : Store)
    → has_new_path outcome s.files ≡ true
    → (let r = put_object_keyed_in_bucket now key outcome bucket_id node_id s in
        r.1.files ≡ (
          if known_bucket (given_or bucket_id (default_bucket_id s.db)) s.db
          then files_after outcome r.0 s.files
          else s.files))
unfolding put_object_keyed_in_bucket
put_object_keyed_in_bucket-files now key outcome bucket_id node_id s h =
    elim (Option-cases (given_or bucket_id (default_bucket_id s.db))) [
      | inl e ↦ rw e refl
      | inr (b, e) ↦ elim (Result-cases (bucket_etag_type b s.db)) [
        | inr (d, k) ↦ rw (e, put_in_bucket, known_bucket, k) refl
        | inl (t, k) ↦
            rw (e, put_in_bucket, known_bucket, k) (put_stored-files now key outcome b node_id s h)
      ]
    ]
