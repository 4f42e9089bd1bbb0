-- ===== src/Server/Sharing.antt =====
-- src/server/share_routes.rs: the handlers that create, list and revoke share links, of a session whose
-- account has the id `auth`.
pub mod Access
pub mod Revoked
pub mod Granted
pub mod Listed
use my_s.Common.{
  Bool, Bytes, List, Option, Text, [], codes, ends_with, false, if◌then◌else◌, inl, inr, is_empty,
  leb, map, nat_beq, negsuc, none, not, pos, select, slash, some, split, starts_with, text_beq,
  trim, trim_end_matches, trim_start_matches, true, ℕ, ℤ, ◌&&◌, ◌||◌, ◌∷◌, ◌⊎◌,
}
use my_s.Database.{Db, Error, Result, err, ok}
use my_s.Keys.{is_slash, normalize_folder_prefix, normalize_object_key}
use my_s.Models.{
  AccountRecord, BucketRecord, ObjectRecord, ShareAccessMode, ShareLinkRecord, ShareTargetKind,
  bucket_readers, file, folder, is_file, is_public, public, read_action, specific_users,
}
use my_s.Objects.Listing.{base_name, list_objects_with_prefix}
use my_s.Objects.Paging.{PrefixListResult}
use my_s.Objects.Rows.{get_object_by_filename_in_bucket}
use my_s.Rbac.Permissions.{account_is_owner, check_perm, get_bucket_by_id}
use my_s.Server.Blobs.{Store}
use my_s.Server.Content.{
  Content, get_object_keyed_with_headers, require_bucket_perm, resolve_bucket_id,
}
use my_s.Server.Http.{
  Handler, Served, StatusCode, answer_with, attempt, bad_request, created, demand, forbidden, gone,
  http_ok, internal_server_error, lookup, no_content, not_found, on_db, read, refuse, refused,
  reply, says, served, unauthorized, ◌>>=◌, ◌>>◌,
}
use my_s.Server.Media.{MediaGrant, TokenError, personal_grant, share_grant, verify_access_token}
use my_s.Shares.Links.{
  ShareRequest, create_share, get_share_by_id, get_share_by_short_code, get_share_by_token,
  list_share_recipients, revoke_share, share_allows_account, share_is_usable,
}
use my_s.Shares.Scope.{
  ListDenied, key_in_share_scope, list_shares_for_target, resolve_list_prefix, share_url_path,
  usable,
}

pub record CreateShareBody : Type 0 where
  pub bucket : Option Text
  pub key : Text
  pub kind : ShareTargetKind
  pub access_mode : ShareAccessMode
  pub account_ids : List ℕ
  pub expires_at : Option ℕ
  pub shorten : Bool

pub record ShareView : Type 0 where
  pub id : ℕ
  pub token : Text
  pub short_code : Option Text
  pub url_path : Text
  pub bucket_id : ℕ
  pub target_key : Text
  pub target_kind : ShareTargetKind
  pub access_mode : ShareAccessMode
  pub expires_at : Option ℕ
  pub created_at : ℕ
  pub account_ids : List ℕ

unfoldable pub to_view : ShareLinkRecord → List ℕ → ShareView
to_view share account_ids = record {
  id = share.id;
  token = share.token;
  short_code = share.short_code;
  url_path = share_url_path share;
  bucket_id = share.bucket_id;
  target_key = share.target_key;
  target_kind = share.target_kind;
  access_mode = share.access_mode;
  expires_at = share.expires_at;
  created_at = share.created_at;
  account_ids = account_ids;
}

-- `match normalize(…) { Ok(k) => k, Err(msg) => return (BAD_REQUEST, msg) }`
abbrev pub or_bad_request : {S A : Type 0} → Result A → Handler S A
or_bad_request (ok a) = read (λ _. a)
or_bad_request (err e) = refuse bad_request

abbrev pub normalized_target : ShareTargetKind → Text → Result Text
normalized_target file key = normalize_object_key key
normalized_target folder key = normalize_folder_prefix key

-- exp <= now
abbrev pub is_over : Option ℕ → ℕ → Bool
is_over none now = false
is_over (some exp) now = leb exp now

abbrev pub uncreated : Error → StatusCode
uncreated e =
    if says "not found" e || says "empty" e
    then not_found
    else if says "requires" e || says "specific_users" e
    then bad_request
    else internal_server_error

unfoldable pub post_share :
    (ℕ → Text × Text) → ℕ → ℕ → CreateShareBody → Handler Db (StatusCode × ShareView)
post_share draw now auth body = do
  b ← lookup (resolve_bucket_id body.bucket) not_found
  demand (require_bucket_perm auth b.id read_action) forbidden
  target_key ← or_bad_request (normalized_target body.kind body.key)
  demand (λ _. not (is_over body.expires_at now)) bad_request
  share ← attempt uncreated (
      create_share draw now
        (record {
          bucket_id = b.id;
          target_key = target_key;
          target_kind = body.kind;
          access_mode = body.access_mode;
          expires_at = body.expires_at;
          created_by_account_id = auth;
        })
        body.account_ids body.shorten)
  recipients ← read (list_share_recipients share.id)
  reply created (to_view share recipients)

abbrev pub view_of : Db → ShareLinkRecord → ShareView
view_of db share = to_view share (list_share_recipients share.id db)

abbrev pub trimmed_key : Text → Text
trimmed_key key = trim_start_matches is_slash (trim key)

unfoldable pub get_shares : ℕ → ℕ → Option Text → Text → Handler Db (StatusCode × List ShareView)
get_shares now auth bucket raw_key = do
  b ← lookup (resolve_bucket_id bucket) not_found
  demand (require_bucket_perm auth b.id read_action) forbidden
  demand (λ _. not (is_empty (trimmed_key raw_key))) bad_request
  λ db.
      reply http_ok
        (map (view_of db)
          (select (usable now) (list_shares_for_target b.id (trimmed_key raw_key) auth db)))
        db

abbrev pub unrevoked : Error → StatusCode
unrevoked e = if says "not allowed" e then forbidden else internal_server_error

abbrev pub revocation : Bool → Handler Db (StatusCode × Unit {0})
revocation true = answer_with no_content
revocation false = refuse not_found

unfoldable pub revoke_share_by : ℕ → ℕ → ℕ → Handler Db (StatusCode × Unit {0})
revoke_share_by now auth id = do
  is_owner ← read (account_is_owner auth)
  share ← lookup (get_share_by_id id) not_found
  demand (λ db. is_owner || require_bucket_perm auth share.bucket_id read_action db) forbidden
  done ← attempt unrevoked (revoke_share now id auth is_owner)
  revocation done
