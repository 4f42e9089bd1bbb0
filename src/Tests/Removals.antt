-- ===== src/Tests/Removals.antt =====
-- Witnesses for what is purged, shown and unlinked.
use my_s.Common.{
  List, Text, [], any, codes, delete, false, first, insert_sorted, length, none, order_by, refl,
  select, some, text_beq, text_leb, true, ◌&&◌, ◌+◌, ◌∷◌, ◌≡◌, ◌⊎◌,
}
use my_s.Models.{BucketRecord, or_perms}
use my_s.Objects.Bin.{list_deleted_objects}
use my_s.Objects.Rows.{get_object_by_id}
use my_s.Objects.Rows.Unique.{IsValid}
use my_s.Rbac.Buckets.{in_bucket, list_buckets}
use my_s.Rbac.Permissions.{
  account_is_owner, account_owns_bucket, check_perm, effective_perms, get_bucket_by_id, or_all,
}
use my_s.Server.Blobs.{Store}
use my_s.Server.Http.{bad_request, http_ok, internal_server_error, no_content, refused, served}
use my_s.Server.Settings.Buckets.{delete_bucket_by}
use my_s.Server.Settings.Buckets.Dropped.{
  delete_bucket_by-deleted, delete_bucket_by-shared, purged_of, without_bucket,
}
use my_s.Server.Settings.Recycle.{
  list_recycle_bin, purge_ids, purge_recycle_items, readable_ids, recycle_bin_bucket_filter,
}
use my_s.Server.Settings.Recycle.Survivors.{purge_recycle_items-survivors}
use my_s.Server.Settings.Recycle.Visible.{is_foreign, list_recycle_bin-readable}
use my_s.Storage.Reconcile.{reconcile}
use my_s.Storage.Reconcile.Orphans.{is_orphan, reconcile-files}
use my_s.Tests.Data.{bucket_row, cat, sample, sample-IsValid}
use my_s.Tests.Settings.{staffed}

abbrev full_store : Store
full_store = record { db = staffed; files = codes "u1" ∷ codes "u2" ∷ codes "u3" ∷ [] }

-- Without share links.
abbrev unshared : Store
unshared = record { db = record staffed { shares = [] }; files = full_store.files }

abbrev photos : BucketRecord
photos = bucket_row 2 (codes "p") (some 1) false

delete_bucket_by-deleted_example :
    (let r = delete_bucket_by 100 (codes "n1") 1 2 unshared in
      (r.0 ≡ served (no_content, tt))
      × (r.1.db ≡ without_bucket 2 (purged_of (in_bucket 2) r.1.db unshared.db)))
unfolding IsValid get_bucket_by_id first account_owns_bucket text_beq any
delete_bucket_by-deleted_example =
    delete_bucket_by-deleted 100 (codes "n1") 1 2 photos unshared sample-IsValid refl refl refl refl

delete_bucket_by-shared_example :
    (let r = delete_bucket_by 100 (codes "n1") 1 2 full_store in
      (r.0 ≡ refused internal_server_error)
      × (r.1.db ≡ purged_of (in_bucket 2) r.1.db full_store.db))
unfolding IsValid get_bucket_by_id first account_owns_bucket text_beq any
delete_bucket_by-shared_example =
    delete_bucket_by-shared 100 (codes "n1") 1 2 photos full_store sample-IsValid refl refl refl
      refl

list_recycle_bin-readable_example :
    (sample ≡ sample)
    × (any (is_foreign 2 sample) (list_deleted_objects (some (2 ∷ [])) sample) ≡ false)
unfolding list_recycle_bin recycle_bin_bucket_filter readable_ids list_buckets order_by
    insert_sorted text_leb check_perm effective_perms account_owns_bucket get_bucket_by_id first
    account_is_owner any or_all or_perms select
list_recycle_bin-readable_example =
    list_recycle_bin-readable 2 none http_ok (list_deleted_objects (some (2 ∷ [])) sample) sample
      sample refl

purge_recycle_items-survivors_example :
    (get_object_by_id 1 (purge_recycle_items 100 (codes "n1") 1 (1 ∷ 3 ∷ []) full_store).1.db
      ≡ some cat)
    × ((purge_recycle_items 100 (codes "n1") 1 (1 ∷ 3 ∷ []) full_store).0
          ≡ served (http_ok, (purge_ids 100 (codes "n1") 1 (1 ∷ 3 ∷ []) full_store).0)
        ⊎ (purge_recycle_items 100 (codes "n1") 1 (1 ∷ 3 ∷ []) full_store).0 ≡ refused bad_request)
    × ((purge_ids 100 (codes "n1") 1 (1 ∷ 3 ∷ []) full_store).0.deleted
          + length (purge_ids 100 (codes "n1") 1 (1 ∷ 3 ∷ []) full_store).0.failed
        ≡ 2)
unfolding get_object_by_id first
purge_recycle_items-survivors_example =
    purge_recycle_items-survivors 100 (codes "n1") 1 1 (1 ∷ 3 ∷ []) cat full_store refl refl

abbrev on_disk : List Text
on_disk = codes "u1" ∷ codes "x" ∷ codes ".h" ∷ codes "u3" ∷ []

reconcile-files_example :
    (reconcile (λ _. true) sample on_disk).1
    ≡ delete (λ name. is_orphan sample name && true) on_disk
reconcile-files_example = reconcile-files (λ _. true) sample on_disk
