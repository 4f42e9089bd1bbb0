-- ===== src/Tests/Settings.antt =====
-- Witnesses for the handlers of the settings pages, on the sample database with an owner.
use my_s.Common.{
  Bool, Option, Text, [], any, arith, codes, false, first, is_whitespace, none, pos, refl, some,
  text_beq, trim, trim_end_matches, trim_start_matches, true, update, ◌+◌, ◌∷◌, ◌≡◌,
}
use my_s.Database.{Db}
use my_s.Models.{AccountRecord}
use my_s.Rbac.Accounts.{account_count, create_account, get_account_by_id, get_account_by_username}
use my_s.Rbac.Accounts.Unique.{AccountsBelow, UniqueAccounts, ValidAccounts}
use my_s.Rbac.Buckets.{claim_unowned_buckets}
use my_s.Rbac.Permissions.{account_is_owner}
use my_s.Rbac.Roles.{assign_role, get_owner_role, insert_account_role}
use my_s.Rbac.Sessions.{create_session, resolve_session}
use my_s.Server.Http.{Served, StatusCode, conflict, created, http_ok, refused, served}
use my_s.Server.Settings.Accounts.{delete_account_by, patch_account, regenerate_password}
use my_s.Server.Settings.Accounts.Own.{can_enter, patch_account-own}
use my_s.Server.Settings.Accounts.Renewed.{regenerate_password-auth_login}
use my_s.Server.Settings.Login.{
  BootstrapReply, CredentialsOnce, LoginReply, auth_bootstrap, auth_login, session_cookie,
  seven_days,
}
use my_s.Server.Settings.Login.Bootstrap.{auth_bootstrap-once}
use my_s.Server.Settings.Login.Entered.{auth_login-resolve_session}
use my_s.Tests.Data.{account_row, sample}

abbrev pub staffed : Db
staffed = record sample {
  accounts =
      record (account_row 1 (codes "61")) { password_hash = 0x23 ∷ codes "cd" }
      ∷ account_row 2 (codes "62")
      ∷ [];
  roles =
      record { id = 1; name = codes "r"; position = pos 0; is_owner = false }
      ∷ record { id = 2; name = codes "Owner"; position = pos 9; is_owner = true }
      ∷ [];
  account_roles =
      record { account_id = 2; role_id = 1 } ∷ record { account_id = 1; role_id = 2 } ∷ [];
}

abbrev empty_db : Db
empty_db = record staffed {
  accounts = [];
  next_account = 1;
  account_roles = [];
  sessions = [];
  shares = [];
}

-- A hash that can be read, and its check.
abbrev plain_hash : Text → Text
plain_hash p = 0x23 ∷ p

abbrev plain_verify : Text → Text → Option Bool
plain_verify p h = some (text_beq (plain_hash p) h)

abbrev keys : CredentialsOnce
keys = record { username_hex = codes "ab"; password_hex = codes "cd" }

abbrev new_token : Text
new_token = codes "new"

staffed-accounts : ValidAccounts staffed
unfolding ValidAccounts UniqueAccounts AccountsBelow any
staffed-accounts = ((refl, (refl, tt)), (refl, (refl, tt)))

abbrev login_body : LoginReply
login_body = record {
  account_id = 1;
  session_token = new_token;
  set_cookie = session_cookie 100 new_token 604900;
}

auth_login-resolve_session_example :
    (a : AccountRecord) × (get_account_by_username (trim (codes "61")) staffed ≡ some a)
    × (a.is_disabled ≡ false)
    × (plain_verify (trim (codes "cd")) a.password_hash ≡ some true)
    × (1 ≡ a.id)
    × ((resolve_session 600 new_token
          (auth_login plain_verify 100 new_token (codes "61") (codes "cd") staffed).1).0
        ≡ some a)
unfolding auth_login get_account_by_username first trim trim_end_matches trim_start_matches
    is_whitespace text_beq create_session any
auth_login-resolve_session_example =
    auth_login-resolve_session plain_verify 100 600 new_token (codes "61") (codes "cd") http_ok
      login_body staffed (auth_login plain_verify 100 new_token (codes "61") (codes "cd") staffed).1
      staffed-accounts (omega arith) refl

abbrev first_body : BootstrapReply
first_body = record {
  account_id = 1;
  credentials = keys;
  session_token = new_token;
  set_cookie = session_cookie 100 new_token 604900;
}

abbrev first_run : Served (StatusCode × BootstrapReply) × Db
first_run = auth_bootstrap plain_hash 100 keys new_token none empty_db

auth_bootstrap-once_example :
    (account_count empty_db ≡ 0)
    × (account_count first_run.1 ≡ 1)
    × (account_is_owner 1 first_run.1 ≡ true)
    × (auth_bootstrap plain_hash 200 keys (codes "t") none first_run.1
        ≡ (refused conflict, first_run.1))
unfolding auth_bootstrap account_count create_account get_account_by_id first get_owner_role
    assign_role insert_account_role any create_session claim_unowned_buckets update
auth_bootstrap-once_example =
    auth_bootstrap-once plain_hash 100 200 keys keys new_token (codes "t") none none created
      first_body empty_db first_run.1 refl

regenerate_password-auth_login_example :
    ((regenerate_password plain_hash 100 1 2 (codes "ef") staffed).0
      ≡ served (http_ok, record { username_hex = codes "62"; password_hex = codes "ef" }))
    × ((auth_login plain_verify 150 new_token
          (codes "62")
          (codes "ef")
          (regenerate_password plain_hash 100 1 2 (codes "ef") staffed).1).0
        ≡ served (
          http_ok,
          record {
            account_id = 2;
            session_token = new_token;
            set_cookie = session_cookie 150 new_token (150 + seven_days);
          },
        ))
unfolding get_account_by_id get_account_by_username first trim trim_end_matches trim_start_matches
    is_whitespace text_beq account_is_owner any UniqueAccounts
regenerate_password-auth_login_example =
    regenerate_password-auth_login plain_hash plain_verify 100 150 1 2 (codes "ef") new_token
      (account_row 2 (codes "62")) staffed refl refl refl (refl, (refl, tt)) refl refl refl refl
      refl

patch_account-own_example :
    (any (can_enter 1) (patch_account 100 1 1 none (some true) staffed).1.accounts ≡ true)
    × (any (can_enter 1) (delete_account_by 1 1 staffed).1.accounts ≡ true)
unfolding any
patch_account-own_example = patch_account-own 100 1 1 none (some true) staffed refl
