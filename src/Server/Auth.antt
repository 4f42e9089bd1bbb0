-- ===== src/Server/Auth.antt =====
-- src/server/session_auth.rs: the session token of a request and the account it stands for. A header
-- is its text, none if it is missing or is not valid text; a request has at most one of each.
use my_s.Common.{
  List, Option, Text, [], codes, none, or_else, some, split, strip_prefix, trim, ℕ, ◌++◌, ◌∷◌,
}
use my_s.Database.{Db}
use my_s.Models.{AccountRecord}
use my_s.Rbac.Permissions.{account_is_owner}
use my_s.Rbac.Sessions.{resolve_session}
use my_s.Server.Http.{Handler, demand, forbidden, lookup, read, served, unauthorized, ◌>>=◌}

pub record HeaderMap : Type 0 where
  pub authorization : Option Text
  pub cookie : Option Text

abbrev pub session_cookie_name : Text
session_cookie_name = codes "mys3_session"

abbrev pub semicolon : ℕ
semicolon = 0x3b

abbrev pub non_empty : Text → Option Text
non_empty [] = none
non_empty (c ∷ s) = some (c ∷ s)

abbrev pub trimmed_rest : Option Text → Option Text
trimmed_rest none = none
trimmed_rest (some rest) = non_empty (trim rest)

unfoldable pub bearer_token : Text → Option Text
bearer_token s = trimmed_rest (strip_prefix (codes "Bearer ") (trim s))

-- One part of the cookie header.
abbrev pub part_token : Text → Option Text
part_token part = trimmed_rest (strip_prefix (session_cookie_name ++ codes "=") (trim part))

unfoldable pub parts_token : List Text → Option Text
parts_token [] = none
parts_token (part ∷ parts) = or_else (part_token part) (parts_token parts)

unfoldable pub cookie_token : Text → Option Text
cookie_token s = parts_token (split semicolon s)

abbrev pub in_header : (Text → Option Text) → Option Text → Option Text
in_header f none = none
in_header f (some s) = f s

unfoldable pub extract_token_from_headers : HeaderMap → Option Text
extract_token_from_headers headers =
    or_else (in_header bearer_token headers.authorization) (in_header cookie_token headers.cookie)

abbrev pub session_account : ℕ → Text → Handler Db (Option AccountRecord)
session_account now token db = let (r, db') = resolve_session now token db in (served r, db')

-- `AuthAccount::from_request_parts`
unfoldable pub auth_account : ℕ → HeaderMap → Handler Db AccountRecord
auth_account now headers = do
  token ← lookup (λ _. extract_token_from_headers headers) unauthorized
  account ← session_account now token
  lookup (λ _. account) unauthorized

abbrev pub optional_session : ℕ → Option Text → Handler Db (Option AccountRecord)
optional_session now none = read (λ _. none)
optional_session now (some token) = session_account now token

-- `OptionalAuth::from_request_parts`
unfoldable pub optional_auth : ℕ → HeaderMap → Handler Db (Option AccountRecord)
optional_auth now headers = optional_session now (extract_token_from_headers headers)

abbrev pub require_owner : ℕ → Handler Db (Unit {0})
require_owner account_id = demand (account_is_owner account_id) forbidden
