-- ===== src/Rbac/Buckets.antt =====
-- src/db/rbac.rs: buckets and the recycle-bin settings.
pub mod Deletion
use my_s.Common.{
  Bool, List, Option, Text, [], any, codes, delete, false, first, if◌then◌else◌, map, nat_beq,
  negsuc, none, not, order_by, pos, select, some, text_beq, text_leb, to_nat, true, update, ℕ, ℤ,
  ◌&&◌, ◌++◌, ◌+◌, ◌||◌, ◌∷◌,
}
use my_s.Database.{
  Db, Exec, account_not_found, bail, bucket_not_empty, bucket_not_found, context, err,
  foreign_key_violation, gets, guard, modify, ok, owner_disabled, pure, retention_negative,
  storage_reserved, storage_undeletable, storage_unrenamable, unique_violation, ◌>>=◌, ◌>>◌,
}
use my_s.Models.{
  AppSettings, BucketNodeAssignment, BucketRecord, EtagType, ObjectRecord, RetentionUnit,
  RoleBucketPermission, RoleRecord, ShareLinkRecord, full, md5,
}
use my_s.Rbac.Accounts.{account_exists, get_account_by_id}
use my_s.Rbac.Permissions.{get_bucket_by_id, has_bucket_id, upsert_role_permission}
use my_s.Rbac.Roles.{get_owner_role}

abbrev pub storage : Text
storage = codes "storage"

abbrev pub has_name : Text → BucketRecord → Bool
has_name name b = text_beq b.name name

unfoldable pub get_bucket_by_name : Text → Db → Option BucketRecord
get_bucket_by_name name db = first (has_name name) db.buckets

-- A row with the defaults of the schema.
abbrev new_bucket : ℕ → ℕ → Text → Option ℕ → EtagType → BucketRecord
new_bucket now id name owner etag_type = record {
  id = id;
  name = name;
  created_utc = now;
  owner_account_id = owner;
  replicate_to_all = true;
  etag_type = etag_type;
  etag_rehash_status = none;
  etag_rehash_processed = 0;
  etag_rehash_total = 0;
  etag_rehash_error = none;
}

-- INSERT INTO bucket … RETURNING id
unfoldable pub insert_bucket : ℕ → Text → Option ℕ → EtagType → Exec Db ℕ
insert_bucket now name owner etag_type db =
    if any (has_name name) db.buckets
    then (err unique_violation, db)
    else if not (account_exists db owner)
    then (err foreign_key_violation, db)
    else (
      ok db.next_bucket,
      record db {
        buckets = db.buckets ++ new_bucket now db.next_bucket name owner etag_type ∷ [];
        next_bucket = db.next_bucket + 1;
      },
    )

-- Full rights on the bucket for the owner role, if there is one.
abbrev grant_owner_role : ℕ → Option RoleRecord → Exec Db (Unit {0})
grant_owner_role id none = pure tt
grant_owner_role id (some owner) = upsert_role_permission owner.id id full

abbrev pub ensure_found : ℕ → Text → Option BucketRecord → Exec Db ℕ
ensure_found now name (some b) = pure b.id
ensure_found now name none = do
  id ← insert_bucket now name none md5
  owner ← gets get_owner_role
  grant_owner_role id owner
  pure id

unfoldable pub ensure_bucket : ℕ → Text → Exec Db ℕ
ensure_bucket now name db = ensure_found now name (get_bucket_by_name name db) db

unfoldable pub create_bucket : ℕ → Text → ℕ → EtagType → Exec Db BucketRecord
create_bucket now name owner_account_id etag_type = do
  id ← insert_bucket now name (some owner_account_id) etag_type
  owner ← gets get_owner_role
  grant_owner_role id owner
  λ db. context (get_bucket_by_id id db) bucket_not_found db

abbrev is_unowned : BucketRecord → Bool
is_unowned b = elim b.owner_account_id [ none ↦ true | some _ ↦ false ]

unfoldable pub claim_unowned_buckets : ℕ → Db → Db
claim_unowned_buckets account_id db = record db {
  buckets = update is_unowned (λ b. record b { owner_account_id = some account_id }) db.buckets;
}

abbrev set_name : ℕ → Text → Exec Db BucketRecord
set_name id new_name db =
    if any (λ (b : BucketRecord). has_name new_name b && not (nat_beq b.id id)) db.buckets
    then (err unique_violation, db)
    else let db' : Db = record db {
      buckets = update (has_bucket_id id) (λ b. record b { name = new_name }) db.buckets;
    } in
      context (get_bucket_by_id id db') bucket_not_found db'

unfoldable pub rename_bucket : ℕ → Text → Exec Db BucketRecord
rename_bucket id new_name = do
  bucket ← λ db. context (get_bucket_by_id id db) bucket_not_found db
  if text_beq bucket.name storage
      then bail storage_unrenamable
      else if text_beq new_name storage
      then bail storage_reserved
      else if text_beq new_name bucket.name
      then pure bucket
      else set_name id new_name

unfoldable pub set_bucket_owner : ℕ → ℕ → Exec Db BucketRecord
set_bucket_owner id new_owner_id = do
  _ ← λ db. context (get_bucket_by_id id db) bucket_not_found db
  account ← λ db. context (get_account_by_id new_owner_id db) account_not_found db
  guard (not account.is_disabled) owner_disabled
  modify (λ db. record db {
    buckets =
        update (has_bucket_id id) (λ b. record b { owner_account_id = some new_owner_id })
          db.buckets;
  })
  λ db. context (get_bucket_by_id id db) bucket_not_found db

abbrev pub in_bucket : ℕ → ObjectRecord → Bool
in_bucket bucket_id o = nat_beq o.bucket_id bucket_id

-- Object ids in a bucket, active and soft-deleted.
unfoldable pub list_object_ids_in_bucket : ℕ → Db → List ℕ
list_object_ids_in_bucket bucket_id db =
    map (λ (o : ObjectRecord). o.id) (select (in_bucket bucket_id) db.objects)

abbrev pub share_in_bucket : ℕ → ShareLinkRecord → Bool
share_in_bucket bucket_id s = nat_beq s.bucket_id bucket_id

-- DELETE FROM bucket: objects and share links that refer to it forbid it; permissions and node
-- assignments go with it.
unfoldable pub delete_bucket_row : ℕ → Exec Db (Unit {0})
delete_bucket_row id db =
    if any (in_bucket id) db.objects || any (share_in_bucket id) db.shares
    then (err foreign_key_violation, db)
    else (
      ok tt,
      record db {
        buckets = delete (has_bucket_id id) db.buckets;
        permissions = delete (λ (p : RoleBucketPermission). nat_beq p.bucket_id id) db.permissions;
        assignments = delete (λ (a : BucketNodeAssignment). nat_beq a.bucket_id id) db.assignments;
      },
    )

unfoldable pub delete_bucket : ℕ → Exec Db (Unit {0})
unfolding delete_bucket_row
delete_bucket id = do
  bucket ← λ db. context (get_bucket_by_id id db) bucket_not_found db
  guard (not (text_beq bucket.name storage)) storage_undeletable
  remaining ← gets (λ db. any (in_bucket id) db.objects)
  guard (not remaining) bucket_not_empty
  delete_bucket_row id

unfoldable pub get_settings : Db → AppSettings
get_settings db = db.settings

abbrev is_negative : ℤ → Bool
is_negative (pos n) = false
is_negative (negsuc n) = true

unfoldable pub set_recycle_retention : ℤ → RetentionUnit → Exec Db AppSettings
unfolding get_settings
set_recycle_retention value unit = do
  guard (not (is_negative value)) retention_negative
  modify (λ db. record db {
    settings = record { recycle_retention_value = to_nat value; recycle_retention_unit = unit };
  })
  gets get_settings

-- ORDER BY name ASC
unfoldable pub list_buckets : Db → List BucketRecord
list_buckets db = order_by (λ (a b : BucketRecord). text_leb a.name b.name) db.buckets
