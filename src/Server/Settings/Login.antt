-- ===== src/Server/Settings/Login.antt =====
-- src/server/settings_routes.rs: the first account, login and logout. The hash of a password, its
-- check and the random values are parameters: `verify_password` returns none on a hash that it
-- cannot parse.
pub mod Entered
pub mod Bootstrap
use mathlib.Core.List.{reverse}
use my_s.Common.{
  Bool, List, Option, Text, [], codes, false, if◌then◌else◌, ltb, nat_beq, none, not, some, suc,
  trim, true, zero, ℕ, ◌%◌, ◌*◌, ◌++◌, ◌+◌, ◌-◌, ◌/◌, ◌∷◌,
}
use my_s.Database.{Db}
use my_s.Models.{AccountRecord}
use my_s.Rbac.Accounts.{account_count, create_account, get_account_by_username}
use my_s.Rbac.Buckets.{claim_unowned_buckets}
use my_s.Rbac.Permissions.{account_is_owner}
use my_s.Rbac.Roles.{assign_role, get_owner_role, list_account_role_ids}
use my_s.Rbac.Sessions.{create_session, delete_session}
use my_s.Server.Auth.{HeaderMap, extract_token_from_headers, optional_auth, session_cookie_name}
use my_s.Server.Numbers.{decimal}
use my_s.Server.Http.{
  Handler, StatusCode, attempt, change, conflict, created, demand, forbidden, http_ok, internal,
  internal_server_error, lookup, no_content, read, refuse, reply, unauthorized, ◌>>=◌, ◌>>◌,
}

pub record AccountView : Type 0 where
  pub id : ℕ
  pub username_hex : Text
  pub display_name : Text
  pub is_disabled : Bool
  pub role_ids : List ℕ
  pub created_utc : ℕ
  pub created_by_account_id : Option ℕ

abbrev pub account_view : Db → AccountRecord → AccountView
account_view db a = record {
  id = a.id;
  username_hex = a.username_hex;
  display_name = a.display_name;
  is_disabled = a.is_disabled;
  role_ids = list_account_role_ids a.id db;
  created_utc = a.created_utc;
  created_by_account_id = a.created_by_account_id;
}

pub record AuthStatusResponse : Type 0 where
  pub needs_bootstrap : Bool
  pub authenticated : Bool
  pub account : Option AccountView
  pub is_owner : Bool

abbrev status_of : Bool → Db → Option AccountRecord → AuthStatusResponse
status_of needs_bootstrap db none = record {
  needs_bootstrap = needs_bootstrap;
  authenticated = false;
  account = none;
  is_owner = false;
}
status_of needs_bootstrap db (some a) = record {
  needs_bootstrap = needs_bootstrap;
  authenticated = true;
  account = some (account_view db a);
  is_owner = account_is_owner a.id db;
}

unfoldable pub auth_status : ℕ → HeaderMap → Handler Db (StatusCode × AuthStatusResponse)
auth_status now headers = do
  needs_bootstrap ← read (λ db. nat_beq (account_count db) 0)
  account ← optional_auth now headers
  λ db. reply http_ok (status_of needs_bootstrap db account) db

pub record CredentialsOnce : Type 0 where
  pub username_hex : Text
  pub password_hex : Text

-- The bodies of the responses: account, credentials, session token, and the cookie of the header.
pub record BootstrapReply : Type 0 where
  pub account_id : ℕ
  pub credentials : CredentialsOnce
  pub session_token : Text
  pub set_cookie : Text

pub record LoginReply : Type 0 where
  pub account_id : ℕ
  pub session_token : Text
  pub set_cookie : Text

-- `expires - now` in seconds, not below 0
unfoldable pub session_cookie : ℕ → Text → ℕ → Text
session_cookie now token expires =
    session_cookie_name
    ++ codes "="
    ++ token
    ++ codes "; Path=/; HttpOnly; SameSite=Lax; Max-Age="
    ++ decimal (expires - now)

abbrev pub seven_days : ℕ
seven_days = 7 * 86400

abbrev pub display_or : Text → Option Text → Text
display_or default none = default
display_or default (some name) = name

module _ (hash_password : Text → Text) where
  unfoldable pub auth_bootstrap :
      ℕ → CredentialsOnce → Text → Option Text → Handler Db (StatusCode × BootstrapReply)
  auth_bootstrap now credentials token display_name = do
    demand (λ db. nat_beq (account_count db) 0) conflict
    account ← attempt internal (
        create_account now credentials.username_hex (hash_password credentials.password_hex)
          (display_or (codes "Owner") display_name) none)
    owner ← lookup get_owner_role internal_server_error
    attempt internal (assign_role account.id owner.id)
    change (claim_unowned_buckets account.id)
    (session_token, expires) ← attempt internal (create_session now token account.id seven_days)
    reply created (record {
      account_id = account.id;
      credentials = credentials;
      session_token = session_token;
      set_cookie = session_cookie now session_token expires;
    })

abbrev checked : Option Bool → Handler Db (Unit {0})
checked none = refuse internal_server_error
checked (some false) = refuse unauthorized
checked (some true) = read (λ _. tt)

module _ (verify_password : Text → Text → Option Bool) where
  unfoldable pub auth_login : ℕ → Text → Text → Text → Handler Db (StatusCode × LoginReply)
  auth_login now token username_hex password_hex = do
    account ← lookup (get_account_by_username (trim username_hex)) unauthorized
    demand (λ _. not account.is_disabled) forbidden
    checked (verify_password (trim password_hex) account.password_hash)
    (session_token, expires) ← attempt internal (create_session now token account.id seven_days)
    reply http_ok (record {
      account_id = account.id;
      session_token = session_token;
      set_cookie = session_cookie now session_token expires;
    })

abbrev clear_cookie : Text
clear_cookie = session_cookie_name ++ codes "=; Path=/; HttpOnly; SameSite=Lax; Max-Age=0"

abbrev drop_session : Option Text → Db → Db
drop_session none db = db
drop_session (some token) db = delete_session token db

-- The session is deleted if the request has one; the answer is the same, and the cookie is cleared.
unfoldable pub auth_logout : HeaderMap → Handler Db (StatusCode × Text)
auth_logout headers = do
  change (drop_session (extract_token_from_headers headers))
  reply no_content clear_cookie
