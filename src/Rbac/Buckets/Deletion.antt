-- ===== src/Rbac/Buckets/Deletion.antt =====
-- src/db/rbac.rs: when a bucket can be deleted.
use my_s.Common.{Option-cases, any, arith, inl, inr, true, ℕ, ◌≡◌, ◌≢◌}
use my_s.Database.{Db, ok}
use my_s.Rbac.Buckets.{delete_bucket, share_in_bucket}
use my_s.Rbac.Permissions.{get_bucket_by_id}

-- A bucket with a share link, revoked or not, is never deleted: the statement fails and the
-- database stays as it was.
pub delete_bucket-shared :
    (id : ℕ) (db : Db)
    → any (share_in_bucket id) db.shares ≡ true
    → ((delete_bucket id db).0 ≢ ok tt) × ((delete_bucket id db).1 ≡ db)
unfolding delete_bucket
delete_bucket-shared id db h = elim (Option-cases (get_bucket_by_id id db)) [
  | inl e ↦ ground arith
  | inr (b, e) ↦ ground arith
]
