-- ===== src/Server/Settings/Accounts.antt =====
-- src/server/settings_routes.rs: accounts. `auth` is the id of the session's account, and the random
-- credentials are arguments.
pub mod Own
pub mod Renewed
use my_s.Common.{Bool, List, Option, Text, [], false, map, nat_beq, none, not, some, true, ℕ, ◌&&◌}
use my_s.Database.{Db}
use my_s.Rbac.Accounts.{
  account_created_by, create_account, delete_account, get_account_by_id, list_account_directory,
  list_accounts, set_account_disabled, set_account_password, update_account_display_name,
}
use my_s.Rbac.Roles.{set_account_roles}
use my_s.Rbac.Sessions.{delete_sessions_for_account}
use my_s.Server.Auth.{require_owner}
use my_s.Server.Http.{
  Handler, StatusCode, answer_with, attempt, bad_request, change, created, demand, forbidden,
  http_ok, internal, lookup, no_content, not_found, read, reply, ◌>>=◌, ◌>>◌,
}
use my_s.Server.Settings.Login.{AccountView, CredentialsOnce, account_view}

unfoldable pub get_account_directory : ℕ → Handler Db (StatusCode × List (ℕ × Text))
get_account_directory auth db = reply http_ok (list_account_directory db) db

unfoldable pub get_accounts : ℕ → Handler Db (StatusCode × List AccountView)
get_accounts auth = do
  require_owner auth
  λ db. reply http_ok (map (account_view db) (list_accounts db)) db

-- The fields of the account that the body shows, with the credentials.
pub record CreateAccountReply : Type 0 where
  pub id : ℕ
  pub username_hex : Text
  pub display_name : Text
  pub is_disabled : Bool
  pub created_by_account_id : Option ℕ
  pub credentials : CredentialsOnce

abbrev give_roles : ℕ → Option (List ℕ) → Handler Db (Unit {0})
give_roles account_id none = read (λ _. tt)
give_roles account_id (some roles) = attempt internal (set_account_roles account_id roles)

abbrev text_or_empty : Option Text → Text
text_or_empty none = []
text_or_empty (some s) = s

abbrev pub rename : ℕ → ℕ → Option Text → Handler Db (Unit {0})
rename now id none = read (λ _. tt)
rename now id (some name) = attempt (λ _. bad_request) (update_account_display_name now id name)

abbrev drop_sessions_if : Bool → ℕ → Db → Db
drop_sessions_if true id db = delete_sessions_for_account id db
drop_sessions_if false id db = db

abbrev pub set_disabled : ℕ → ℕ → ℕ → Option Bool → Handler Db (Unit {0})
set_disabled now auth id none = read (λ _. tt)
set_disabled now auth id (some disabled) = do
  demand (λ _. not (disabled && nat_beq id auth)) bad_request
  attempt (λ _. bad_request) (set_account_disabled now id disabled)
  change (drop_sessions_if disabled id)

-- The new name stays if the change of `is_disabled` is refused.
unfoldable pub patch_account :
    ℕ → ℕ → ℕ → Option Text → Option Bool → Handler Db (StatusCode × Unit {0})
patch_account now auth id display_name is_disabled = do
  require_owner auth
  rename now id display_name
  set_disabled now auth id is_disabled
  answer_with no_content

abbrev pub deleted_status : Bool → StatusCode
deleted_status true = no_content
deleted_status false = not_found

-- Anyone may delete the accounts that they have created.
unfoldable pub delete_account_by : ℕ → ℕ → Handler Db (StatusCode × Unit {0})
delete_account_by auth id = do
  demand (λ _. not (nat_beq id auth)) bad_request
  demand (account_created_by id auth) forbidden
  found ← attempt internal (delete_account id)
  answer_with (deleted_status found)

module _ (hash_password : Text → Text) where
  unfoldable pub post_account :
      ℕ
      → ℕ
      → CredentialsOnce
      → Option Text
      → Option (List ℕ)
      → Handler Db (StatusCode × CreateAccountReply)
  post_account now auth credentials display_name role_ids = do
    require_owner auth
    account ← attempt internal (
        create_account now credentials.username_hex (hash_password credentials.password_hex)
          (text_or_empty display_name) (some auth))
    give_roles account.id role_ids
    reply created (record {
      id = account.id;
      username_hex = account.username_hex;
      display_name = account.display_name;
      is_disabled = account.is_disabled;
      created_by_account_id = account.created_by_account_id;
      credentials = credentials;
    })

  unfoldable pub regenerate_password : ℕ → ℕ → ℕ → Text → Handler Db (StatusCode × CredentialsOnce)
  regenerate_password now auth id password_hex = do
    require_owner auth
    account ← lookup (get_account_by_id id) not_found
    attempt internal (set_account_password now id (hash_password password_hex))
    change (delete_sessions_for_account id)
    reply http_ok (record { username_hex = account.username_hex; password_hex = password_hex })

unfoldable pub set_roles : ℕ → ℕ → List ℕ → Handler Db (StatusCode × Unit {0})
set_roles auth id role_ids = do
  require_owner auth
  _ ← lookup (get_account_by_id id) not_found
  attempt internal (set_account_roles id role_ids)
  answer_with no_content
