-- ===== src/Tests/Uploads.antt =====
-- Runs of the theorems on uploads.
use my_s.Common.{
  Text, [], all, any, codes, delete, first, if◌then◌else◌, is_whitespace, nat_beq, refl, select,
  some, split, strip_prefix, sum, text_beq, trim, trim_end_matches, trim_start_matches, true,
  update, ℕ, ◌&&◌, ◌*◌, ◌+◌, ◌∷◌, ◌≡◌,
}
use my_s.Database.{ok, transaction}
use my_s.Keys.{normalize_object_key, valid_segment}
use my_s.Models.{BucketRecord, ObjectRecord, md5, or_perms, read_action}
use my_s.Objects.Bin.{past_retention, soft_delete_object_by_filename}
use my_s.Objects.Rows.{get_object_by_filename, get_object_by_filename_in_bucket, insert_object_tx}
use my_s.Rbac.Buckets.{get_bucket_by_name}
use my_s.Rbac.Permissions.{
  account_is_owner, account_owns_bucket, check_perm, effective_perms, get_bucket_by_id, or_all,
}
use my_s.Replication.Nodes.{bucket_used_bytes, check_hard_quota}
use my_s.Replication.Outbox.{enqueue_for_active_peers}
use my_s.Server.Blobs.{
  Store, StoredObject, finished, bucket_etag_type, purge_once, put_object_keyed_in_bucket,
  record_object,
}
use my_s.Server.Blobs.Kept.{
  files_after, known_bucket, put_object_keyed_in_bucket-files, put_object_keyed_in_bucket-lookup,
  row_of,
}
use my_s.Server.Blobs.Purged.{cutoff, purge_once-objects}
use my_s.Server.Content.{
  get_object_keyed_with_headers, require_bucket_perm, resolve_bucket_id, web_get_object_content,
}
use my_s.Server.Content.Served.{web_get_object_content-served}
use my_s.Server.Ranges.{parse_bytes_range, parse_digits, parse_u64, split_once}
use my_s.Tests.Data.{cat, cat_key, sample, sample-IsValid}

abbrev pub before_upload : Store
before_upload = record { db = sample; files = codes "u1" ∷ codes "u2" ∷ codes "u3" ∷ [] }

abbrev upload : StoredObject
upload = record {
  filepath = codes "u4";
  file_format = codes "txt";
  filesize_bytes = 12;
  etag_type = md5;
  etag = codes "e1";
}

put_object_keyed_in_bucket-lookup_example :
    (id : ℕ) × (get_object_by_filename_in_bucket cat_key 2
        (put_object_keyed_in_bucket 200 cat_key
          (finished upload)
          (some 2)
          (codes "n1")
          before_upload).1.db
      ≡ (if nat_beq 2 2 && text_beq cat_key cat_key
          then some (row_of id 200 cat_key upload 2)
          else get_object_by_filename_in_bucket cat_key 2 sample))
unfolding put_object_keyed_in_bucket bucket_etag_type check_hard_quota bucket_used_bytes
    record_object transaction insert_object_tx soft_delete_object_by_filename
    get_object_by_filename_in_bucket enqueue_for_active_peers any first select sum update text_beq
put_object_keyed_in_bucket-lookup_example =
    put_object_keyed_in_bucket-lookup 200 cat_key upload 2 (codes "n1") before_upload (codes "e1")
      sample-IsValid refl cat_key 2

put_object_keyed_in_bucket-files_example :
    (let r =
        put_object_keyed_in_bucket 200 cat_key
          (finished upload)
          (some 2)
          (codes "n1")
          before_upload in
      r.1.files ≡ (
        if known_bucket (some 2) sample
        then files_after (finished upload) r.0 before_upload.files
        else before_upload.files))
unfolding any text_beq
put_object_keyed_in_bucket-files_example =
    put_object_keyed_in_bucket-files 200 cat_key (finished upload) (some 2) (codes "n1")
      before_upload refl

abbrev purge_time : ℕ
purge_time = 30 * 86400 + 100

purge_once-objects_example :
    (purge_once purge_time (codes "n1") before_upload).db.objects
    ≡ delete (past_retention (cutoff purge_time sample)) sample.objects
purge_once-objects_example = purge_once-objects purge_time (codes "n1") before_upload sample-IsValid

web_get_object_content-served_example :
    (key : Text) × (b : BucketRecord) × (held : ObjectRecord) × (normalize_object_key (codes "/a/b")
      ≡ ok key)
    × (resolve_bucket_id (some (codes "p")) sample ≡ some b)
    × (check_perm 2 b.id read_action sample ≡ true)
    × (get_object_by_filename_in_bucket key b.id sample ≡ some held)
    × (get_object_by_filename key sample ≡ some cat)
unfolding web_get_object_content require_bucket_perm resolve_bucket_id get_object_keyed_with_headers
    check_perm effective_perms account_owns_bucket account_is_owner get_bucket_by_id or_all or_perms
    get_object_by_filename get_object_by_filename_in_bucket get_bucket_by_name normalize_object_key
    valid_segment split all any first select text_beq trim trim_start_matches trim_end_matches
    is_whitespace parse_bytes_range parse_u64 parse_digits split_once strip_prefix
web_get_object_content-served_example =
    web_get_object_content-served (codes "/a/b") (some (codes "p")) 2 (some (codes "bytes=2-4"))
      before_upload cat refl
