-- ===== src/Replication/Nodes/Quota.antt =====
-- src/db/repository.rs: hard quotas.
use my_s.Common.{
  Bool, List, Text, [], any, arith, false, if◌then◌else◌, ltb, min, nat_beq, pos, refl, select, sum,
  true, ℕ, ◌&&◌, ◌++◌, ◌+◌, ◌↔◌, ◌∷◌, ◌≡◌, ◌≤◌,
}
use my_s.Database.{Db, ok}
use my_s.Models.{BucketNodeAssignment, EtagType, ObjectRecord, i64_max, is_hard}
use my_s.Objects.Rows.{insert_object_tx, is_active, uploaded_row}
use my_s.Replication.Nodes.{bucket_used_bytes, check_hard_quota, exceeds, of_bucket}

-- No node with a hard quota for the bucket is assigned fewer bytes than the bucket holds.
unfoldable pub WithinQuota : ℕ → ℕ → List BucketNodeAssignment → Type 0
WithinQuota b used [] = Unit
WithinQuota b used (a ∷ rest) =
    ((of_bucket b a && is_hard a.quota_mode && ltb a.allocated_bytes used) ≡ false)
    × WithinQuota b used rest

WithinQuota-any :
    (b used : ℕ) (l : List BucketNodeAssignment)
    → any (λ a. of_bucket b a && is_hard a.quota_mode && exceeds used a) l ≡ false
    → WithinQuota b used l
unfolding any WithinQuota
WithinQuota-any b used [] h = tt
WithinQuota-any b used (a ∷ l) h = ground (arith, WithinQuota-any b used l)

any-WithinQuota :
    (b used : ℕ) (l : List BucketNodeAssignment)
    → WithinQuota b used l
    → any (λ a. of_bucket b a && is_hard a.quota_mode && exceeds used a) l ≡ false
unfolding any WithinQuota
any-WithinQuota b used [] h = refl
any-WithinQuota b used (a ∷ l) h = ground (arith, any-WithinQuota b used l)

-- `check_hard_quota` of a growth that is positive passes exactly when what the bucket would then
-- hold, at most `i64_max`, is within every hard quota.
check_hard_quota_iff :
    (b n : ℕ) (db : Db)
    → (check_hard_quota b (pos (n + 1)) db ≡ ok tt)
      ↔ WithinQuota b (min (bucket_used_bytes b db + (n + 1)) i64_max) db.assignments
unfolding check_hard_quota
check_hard_quota_iff b n db = ground (
  arith,
  WithinQuota-any b (min (bucket_used_bytes b db + (n + 1)) i64_max) db.assignments,
  any-WithinQuota b (min (bucket_used_bytes b db + (n + 1)) i64_max) db.assignments,
)

sum-appended :
    (f : ObjectRecord → ℕ) (p : ObjectRecord → Bool) (x : ObjectRecord) (l : List ObjectRecord)
    → sum f (select p (l ++ x ∷ [])) ≡ sum f (select p l) + (if p x then f x else 0)
unfolding sum select
sum-appended f p x [] = ground arith
sum-appended f p x (y ∷ l) = ground (arith, sum-appended f p x l)

used-appended :
    (x : ObjectRecord) (b : ℕ) (db : Db)
    → is_active x ≡ true
    → x.bucket_id ≡ b
    → bucket_used_bytes b
        (record db { objects = db.objects ++ x ∷ []; next_object = db.next_object + 1 })
      ≡ bucket_used_bytes b db + x.filesize_bytes
unfolding bucket_used_bytes
used-appended x b db h k = ground (
  arith,
  sum-appended (λ (o : ObjectRecord). o.filesize_bytes) (λ o. nat_beq o.bucket_id b && is_active o)
      x db.objects,
)

-- If the quota check of a new object's size, which is positive, passes, the object is put by
-- `insert_object_tx`, and the bytes of the bucket stay within `i64_max`, then the bytes of the bucket
-- have grown by that size and are within every hard quota of the bucket.
pub insert_object_tx-WithinQuota :
    (now : ℕ) (key path file_format : Text) (n : ℕ) (etag_type : EtagType) (etag : Text) (b : ℕ)
    (db : Db) (id : ℕ)
    → check_hard_quota b (pos (n + 1)) db ≡ ok tt
    → (insert_object_tx now key path file_format (n + 1) etag_type etag b db).0 ≡ ok id
    → bucket_used_bytes b db + (n + 1) ≤ i64_max
    → (let db' = (insert_object_tx now key path file_format (n + 1) etag_type etag b db).1 in
        (bucket_used_bytes b db' ≡ bucket_used_bytes b db + (n + 1))
        × WithinQuota b (bucket_used_bytes b db') db'.assignments)
unfolding insert_object_tx
insert_object_tx-WithinQuota now key path file_format n etag_type etag b db id h k s = ground (
  arith,
  used-appended (uploaded_row db.next_object now key path file_format (n + 1) etag_type etag b) b
      db,
  check_hard_quota_iff b n db,
)
