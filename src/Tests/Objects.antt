-- ===== src/Tests/Objects.antt =====
-- Runs of the theorems on objects.
use my_s.Common.{
  Option, Text, codes, false, first, if◌then◌else◌, nat_beq, none, refl, some, text_beq, update, ℕ,
  ◌&&◌, ◌++◌, ◌≡◌,
}
use my_s.Database.{Db, Result, ok}
use my_s.Models.{EtagType, md5, sha256}
use my_s.Objects.Bin.{from_bin, restore_object, soft_delete_object_by_filename, to_bin}
use my_s.Objects.Bin.Lookup.{
  get_object_by_filename_in_bucket-soft_delete, restore_object-soft_delete,
}
use my_s.Objects.Etags.{begin_bucket_etag_rehash, count_active_objects_in_bucket, run_bucket_rehash}
use my_s.Objects.Etags.Progress.{run_bucket_rehash-done}
use my_s.Objects.Folders.{soft_delete_prefix}
use my_s.Objects.Folders.Prefixes.{in_folder, soft_delete_prefix-objects}
use my_s.Objects.Rows.{get_object_by_filename_in_bucket, insert_object_tx}
use my_s.Rbac.Permissions.{has_bucket_id}
use my_s.Tests.Data.{bucket_row, cat, cat_key, sample, sample-IsValid}

abbrev new_put : Result ℕ × Db
new_put = insert_object_tx 200 (codes "d") (codes "u4") (codes "txt") 3 md5 (codes "e1") 2 sample

get_object_by_filename_in_bucket-soft_delete_example :
    get_object_by_filename_in_bucket cat_key 2
      (soft_delete_object_by_filename 200 cat_key (some 2) sample).1
    ≡ (if nat_beq 2 2 && text_beq cat_key cat_key
        then none
        else get_object_by_filename_in_bucket cat_key 2 sample)
get_object_by_filename_in_bucket-soft_delete_example =
    get_object_by_filename_in_bucket-soft_delete 200 cat_key 2 sample sample-IsValid cat_key 2

restore_object-soft_delete_example :
    (restore_object 300 1 (soft_delete_object_by_filename 200 cat_key (some 2) sample).1).0
    ≡ ok (from_bin 300 cat)
unfolding get_object_by_filename_in_bucket first text_beq
restore_object-soft_delete_example =
    restore_object-soft_delete 200 300 cat_key 2 sample cat sample-IsValid refl

soft_delete_prefix-objects_example :
    (soft_delete_prefix 300 2 (codes "A/") sample).1.objects
    ≡ update (in_folder 2 (codes "A/")) (to_bin 300) sample.objects
soft_delete_prefix-objects_example = soft_delete_prefix-objects 300 2 (codes "A/") sample

abbrev hash_of : Text → EtagType → Option Text
hash_of path t = some (path ++ codes "h")

run_bucket_rehash-done_example :
    (let n = count_active_objects_in_bucket 2 sample in
      first
        (has_bucket_id 2)
        (run_bucket_rehash hash_of 200
          (codes "n1")
          2
          sha256
          (begin_bucket_etag_rehash 2 n sample).1).buckets
      ≡ some (record (bucket_row 2 (codes "p") (some 1) false) {
        etag_rehash_status = some (codes "done");
        etag_rehash_processed = n;
        etag_rehash_total = n;
        etag_rehash_error = none;
      }))
unfolding first
run_bucket_rehash-done_example =
    run_bucket_rehash-done hash_of 200 (codes "n1") 2 sha256 sample
      (bucket_row 2 (codes "p") (some 1) false) refl
