-- ===== src/Models/Access.antt =====
-- src/db/models.rs: accounts, roles, permissions; and the rows of `account_role` and `session`.
use my_s.Common.{ℕ, ℤ, Option, Bool, true, false, ◌||◌, Text}

pub record AccountRecord : Type 0 where
  pub id : ℕ
  pub username_hex : Text
  pub password_hash : Text
  pub display_name : Text
  pub is_disabled : Bool
  pub created_utc : ℕ
  pub updated_utc : ℕ
  pub created_by_account_id : Option ℕ

pub record RoleRecord : Type 0 where
  pub id : ℕ
  pub name : Text
  pub position : ℤ
  pub is_owner : Bool

pub record RoleBucketPermission : Type 0 where
  pub role_id : ℕ
  pub bucket_id : ℕ
  pub can_create : Bool
  pub can_read : Bool
  pub can_update : Bool
  pub can_delete : Bool

pub record CrudPerms : Type 0 where
  pub can_create : Bool
  pub can_read : Bool
  pub can_update : Bool
  pub can_delete : Bool

abbrev pub full : CrudPerms
full = record { can_create = true; can_read = true; can_update = true; can_delete = true }

abbrev pub no_perms : CrudPerms
no_perms = record { can_create = false; can_read = false; can_update = false; can_delete = false }

unfoldable pub or_perms : CrudPerms → CrudPerms → CrudPerms
or_perms p q = record {
  can_create = p.can_create || q.can_create;
  can_read = p.can_read || q.can_read;
  can_update = p.can_update || q.can_update;
  can_delete = p.can_delete || q.can_delete;
}

pub data CrudAction : Type 0 where
  create_action read_action update_action delete_action : CrudAction

pub record AccountRole : Type 0 where
  pub account_id : ℕ
  pub role_id : ℕ

pub record SessionRow : Type 0 where
  pub token : Text
  pub account_id : ℕ
  pub expires_utc : ℕ
