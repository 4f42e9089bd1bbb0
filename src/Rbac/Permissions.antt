-- ===== src/Rbac/Permissions.antt =====
-- src/db/rbac.rs: permissions of roles on buckets, and what an account may do.
pub mod Checks
use my_s.Common.{
  Bool, List, Option, [], any, delete, first, if◌then◌else◌, nat_beq, compared_ids, none, opt_beq,
  select, some, compared_texts, true, update, ℕ, ◌&&◌, ◌++◌, ◌∷◌,
}
use my_s.Database.{
  Db, Exec, err, foreign_key_violation, modify, ok, pure, transaction, unique_violation, ◌>>=◌,
  ◌>>◌,
}
use my_s.Models.{
  AccountRole, BucketRecord, CrudAction, CrudPerms, RoleBucketPermission, RoleRecord, create_action,
  delete_action, full, no_perms, or_perms, read_action, update_action,
}
use my_s.Rbac.Roles.{has_role_id, is_assignment}

abbrev pub is_grant : ℕ → ℕ → RoleBucketPermission → Bool
is_grant role_id bucket_id p = nat_beq p.role_id role_id && nat_beq p.bucket_id bucket_id

abbrev pub has_bucket_id : ℕ → BucketRecord → Bool
has_bucket_id id b = nat_beq b.id id

unfoldable pub list_role_permissions : ℕ → Db → List RoleBucketPermission
list_role_permissions role_id db =
    select (λ (p : RoleBucketPermission). nat_beq p.role_id role_id) db.permissions

abbrev pub to_row : ℕ → ℕ → CrudPerms → RoleBucketPermission
to_row role_id bucket_id perms = record {
  role_id = role_id;
  bucket_id = bucket_id;
  can_create = perms.can_create;
  can_read = perms.can_read;
  can_update = perms.can_update;
  can_delete = perms.can_delete;
}

unfoldable pub upsert_role_permission : ℕ → ℕ → CrudPerms → Exec Db (Unit {0})
upsert_role_permission role_id bucket_id perms db =
    if any (is_grant role_id bucket_id) db.permissions
    then (
      ok tt,
      record db {
        permissions =
            update (is_grant role_id bucket_id) (λ _. to_row role_id bucket_id perms)
              db.permissions;
      },
    )
    else if any (has_role_id role_id) db.roles && any (has_bucket_id bucket_id) db.buckets
    then (ok tt, record db { permissions = db.permissions ++ to_row role_id bucket_id perms ∷ [] })
    else (err foreign_key_violation, db)

unfoldable pub insert_role_permission : ℕ → ℕ × CrudPerms → Exec Db (Unit {0})
insert_role_permission role_id (bucket_id, perms) db =
    if any (is_grant role_id bucket_id) db.permissions
    then (err unique_violation, db)
    else if any (has_role_id role_id) db.roles && any (has_bucket_id bucket_id) db.buckets
    then (ok tt, record db { permissions = db.permissions ++ to_row role_id bucket_id perms ∷ [] })
    else (err foreign_key_violation, db)

unfoldable pub insert_role_permissions : ℕ → List (ℕ × CrudPerms) → Exec Db (Unit {0})
insert_role_permissions role_id [] = pure tt
insert_role_permissions role_id (p ∷ perms) = do
  insert_role_permission role_id p
  insert_role_permissions role_id perms

unfoldable pub replace_role_permissions : ℕ → List (ℕ × CrudPerms) → Exec Db (Unit {0})
unfolding transaction
replace_role_permissions role_id perms = transaction (do
  modify (λ db. record db {
    permissions = delete (λ (p : RoleBucketPermission). nat_beq p.role_id role_id) db.permissions;
  })
  insert_role_permissions role_id perms)

unfoldable pub account_is_owner : ℕ → Db → Bool
account_is_owner account_id db =
    any
      (λ (ar : AccountRole).
        nat_beq ar.account_id account_id
        && any (λ (r : RoleRecord). nat_beq r.id ar.role_id && r.is_owner) db.roles)
      db.account_roles

unfoldable pub get_bucket_by_id : ℕ → Db → Option BucketRecord
get_bucket_by_id id db = first (has_bucket_id id) db.buckets

abbrev owner_of : Option BucketRecord → Option ℕ
owner_of none = none
owner_of (some b) = b.owner_account_id

unfoldable pub account_owns_bucket : ℕ → ℕ → Db → Bool
account_owns_bucket account_id bucket_id db =
    opt_beq (owner_of (get_bucket_by_id bucket_id db)) account_id

-- The rows of the join: permissions on the bucket of the roles that the account holds.
abbrev pub applies : ℕ → ℕ → Db → RoleBucketPermission → Bool
applies account_id bucket_id db p =
    nat_beq p.bucket_id bucket_id && any (is_assignment account_id p.role_id) db.account_roles

abbrev pub perms_of : RoleBucketPermission → CrudPerms
perms_of r = record {
  can_create = r.can_create;
  can_read = r.can_read;
  can_update = r.can_update;
  can_delete = r.can_delete;
}

unfoldable pub or_all : CrudPerms → List RoleBucketPermission → CrudPerms
unfolding or_perms
or_all acc [] = acc
or_all acc (r ∷ rows) = or_all (or_perms acc (perms_of r)) rows

unfoldable pub effective_perms : ℕ → ℕ → Db → CrudPerms
effective_perms account_id bucket_id db =
    if account_owns_bucket account_id bucket_id db
    then full
    else if account_is_owner account_id db
    then full
    else or_all no_perms (select (applies account_id bucket_id db) db.permissions)

abbrev pub allows : CrudAction → CrudPerms → Bool
allows create_action p = p.can_create
allows read_action p = p.can_read
allows update_action p = p.can_update
allows delete_action p = p.can_delete

unfoldable pub check_perm : ℕ → ℕ → CrudAction → Db → Bool
check_perm account_id bucket_id action db = allows action (effective_perms account_id bucket_id db)

-- Bucket owner or anyone with Update may configure replication.
unfoldable pub can_edit_bucket_replication : ℕ → ℕ → Db → Bool
can_edit_bucket_replication account_id bucket_id db =
    if account_owns_bucket account_id bucket_id db
    then true
    else check_perm account_id bucket_id update_action db
