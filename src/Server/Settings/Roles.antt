-- ===== src/Server/Settings/Roles.antt =====
-- src/server/settings_routes.rs: roles, their permissions, and the recycle-bin settings.
use my_s.Common.{
  Bool, List, Option, Text, if◌then◌else◌, is_empty, map, none, not, pos, some, trim, ℕ, ℤ, ◌||◌,
}
use my_s.Database.{Db, Error}
use my_s.Models.{AppSettings, CrudPerms, RetentionUnit, RoleBucketPermission, RoleRecord}
use my_s.Rbac.Buckets.{get_settings, set_recycle_retention}
use my_s.Rbac.Permissions.{list_role_permissions, replace_role_permissions}
use my_s.Rbac.Roles.{create_role, delete_role, get_role, list_roles, update_role}
use my_s.Server.Auth.{require_owner}
use my_s.Server.Http.{
  Handler, StatusCode, answer_with, attempt, bad_request, conflict, created, demand, http_ok,
  internal, internal_server_error, lookup, no_content, not_found, reply, says, ◌>>=◌, ◌>>◌,
}

unfoldable pub get_roles : ℕ → Handler Db (StatusCode × List RoleRecord)
get_roles auth = do require_owner auth; λ db. reply http_ok (list_roles db) db

abbrev position_or : Option ℤ → ℤ
position_or none = pos 0
position_or (some n) = n

-- A name that is taken is a conflict.
abbrev taken : Error → StatusCode
taken e = if says "UNIQUE" e then conflict else internal_server_error

unfoldable pub post_role : ℕ → Text → Option ℤ → Handler Db (StatusCode × RoleRecord)
post_role auth name position = do
  require_owner auth
  demand (λ _. not (is_empty (trim name))) bad_request
  role ← attempt taken (create_role (trim name) (position_or position))
  reply created role

abbrev trimmed : Option Text → Option Text
trimmed none = none
trimmed (some s) = some (trim s)

unfoldable pub patch_role : ℕ → ℕ → Option Text → Option ℤ → Handler Db (StatusCode × Unit {0})
patch_role auth id name position = do
  require_owner auth
  attempt (λ _. bad_request) (update_role id (trimmed name) position)
  answer_with no_content

abbrev undeleted_role : Error → StatusCode
undeleted_role e =
    if says "cannot delete" e || says "not found" e then bad_request else internal_server_error

unfoldable pub delete_role_by : ℕ → ℕ → Handler Db (StatusCode × Unit {0})
delete_role_by auth id = do
  require_owner auth
  attempt undeleted_role (delete_role id)
  answer_with no_content

unfoldable pub get_role_permissions : ℕ → ℕ → Handler Db (StatusCode × List RoleBucketPermission)
get_role_permissions auth id = do
  require_owner auth
  λ db. reply http_ok (list_role_permissions id db) db

pub record PermEntry : Type 0 where
  pub bucket_id : ℕ
  pub can_create : Bool
  pub can_read : Bool
  pub can_update : Bool
  pub can_delete : Bool

abbrev pub to_perms : PermEntry → ℕ × CrudPerms
to_perms p = (
  p.bucket_id,
  record {
    can_create = p.can_create;
    can_read = p.can_read;
    can_update = p.can_update;
    can_delete = p.can_delete;
  },
)

unfoldable pub put_role_permissions : ℕ → ℕ → List PermEntry → Handler Db (StatusCode × Unit {0})
put_role_permissions auth id permissions = do
  require_owner auth
  _ ← lookup (get_role id) not_found
  attempt internal (replace_role_permissions id (map to_perms permissions))
  answer_with no_content

unfoldable pub get_recycle_settings : ℕ → Handler Db (StatusCode × AppSettings)
get_recycle_settings auth = do require_owner auth; λ db. reply http_ok (get_settings db) db

unfoldable pub put_recycle_settings : ℕ → ℤ → RetentionUnit → Handler Db (StatusCode × AppSettings)
put_recycle_settings auth value unit = do
  require_owner auth
  settings ← attempt (λ _. bad_request) (set_recycle_retention value unit)
  reply http_ok settings
