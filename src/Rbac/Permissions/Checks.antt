-- ===== src/Rbac/Permissions/Checks.antt =====
-- src/db/rbac.rs: what `check_perm` grants.
use my_s.Common.{Bool, List, [], any, arith, select, ℕ, ◌&&◌, ◌||◌, ◌∷◌, ◌≡◌}
use my_s.Database.{Db}
use my_s.Models.{
  CrudAction, CrudPerms, RoleBucketPermission, create_action, delete_action, no_perms, or_perms,
  read_action, update_action,
}
use my_s.Rbac.Permissions.{
  account_is_owner, account_owns_bucket, allows, applies, check_perm, effective_perms, or_all,
  perms_of,
}

allows-or_all :
    (action : CrudAction) (acc : CrudPerms) (p : RoleBucketPermission → Bool)
    (rows : List RoleBucketPermission)
    → allows action (or_all acc (select p rows))
      ≡ (allows action acc || any (λ r. p r && allows action (perms_of r)) rows)
unfolding or_all select any
allows-or_all create_action acc p [] = ground arith
allows-or_all read_action acc p [] = ground arith
allows-or_all update_action acc p [] = ground arith
allows-or_all delete_action acc p [] = ground arith
allows-or_all create_action acc p (r ∷ rows) = ground (
  arith,
  allows-or_all create_action acc p rows,
  allows-or_all create_action (or_perms acc (perms_of r)) p rows,
)
allows-or_all read_action acc p (r ∷ rows) = ground (
  arith,
  allows-or_all read_action acc p rows,
  allows-or_all read_action (or_perms acc (perms_of r)) p rows,
)
allows-or_all update_action acc p (r ∷ rows) = ground (
  arith,
  allows-or_all update_action acc p rows,
  allows-or_all update_action (or_perms acc (perms_of r)) p rows,
)
allows-or_all delete_action acc p (r ∷ rows) = ground (
  arith,
  allows-or_all delete_action acc p rows,
  allows-or_all delete_action (or_perms acc (perms_of r)) p rows,
)

-- An account may act on a bucket exactly if it owns the bucket, or holds an owner role, or holds a
-- role with a permission row for the bucket that grants the action.
pub check_perm_iff :
    (account_id bucket_id : ℕ) (action : CrudAction) (db : Db)
    → check_perm account_id bucket_id action db ≡ (
        account_owns_bucket account_id bucket_id db
        || account_is_owner account_id db
        || any
            (λ r. applies account_id bucket_id db r && allows action (perms_of r))
            db.permissions)
unfolding check_perm effective_perms
check_perm_iff a b create_action db =
    ground (arith, allows-or_all create_action no_perms (applies a b db) db.permissions)
check_perm_iff a b read_action db =
    ground (arith, allows-or_all read_action no_perms (applies a b db) db.permissions)
check_perm_iff a b update_action db =
    ground (arith, allows-or_all update_action no_perms (applies a b db) db.permissions)
check_perm_iff a b delete_action db =
    ground (arith, allows-or_all delete_action no_perms (applies a b db) db.permissions)
