-- ===== src/Server/Sharing/Access.antt =====
-- src/server/share_routes.rs: what a share link gives access to: its description, its listing and its
-- contents. `auth` is the account of a session, if there is one, and `access` the access token of the
-- query.
use my_s.Common.{
  Bool, Bytes, Option, Text, codes, ends_with, false, if◌then◌else◌, inl, inr, is_empty, nat_beq,
  negsuc, none, not, pos, select, some, starts_with, trim, trim_end_matches, true, ℕ, ℤ, ◌&&◌, ◌⊎◌,
}
use my_s.Database.{Db}
use my_s.Keys.{is_slash, normalize_folder_prefix, normalize_object_key}
use my_s.Models.{
  AccountRecord, BucketRecord, ObjectRecord, ShareAccessMode, ShareLinkRecord, ShareTargetKind,
  bucket_readers, is_file, is_public, public, read_action, specific_users,
}
use my_s.Objects.Listing.{base_name, list_objects_with_prefix}
use my_s.Objects.Paging.{PrefixListResult}
use my_s.Objects.Rows.{get_object_by_filename_in_bucket}
use my_s.Rbac.Permissions.{check_perm, get_bucket_by_id}
use my_s.Server.Blobs.{Store}
use my_s.Server.Content.{Content, get_object_keyed_with_headers}
use my_s.Server.Http.{
  Handler, Served, StatusCode, bad_request, demand, forbidden, gone, http_ok, lookup, not_found,
  on_db, read, refuse, refused, reply, served, unauthorized, ◌>>=◌, ◌>>◌,
}
use my_s.Server.Media.{MediaGrant, TokenError, share_grant, verify_access_token}
use my_s.Shares.Links.{
  get_share_by_short_code, get_share_by_token, share_allows_account, share_is_usable,
}
use my_s.Shares.Scope.{ListDenied, key_in_share_scope, resolve_list_prefix}
use my_s.Server.Sharing.{or_bad_request}

unfoldable pub display_name_for : ShareLinkRecord → Text
display_name_for share =
    if is_file share.target_kind
    then base_name share.target_key
    else base_name (trim_end_matches is_slash share.target_key)

pub record ShareMetaResponse : Type 0 where
  pub target_kind : ShareTargetKind
  pub target_key : Text
  pub display_name : Text
  pub access_mode : ShareAccessMode
  pub expires_at : Option ℕ
  pub login_required : Bool
  pub bucket_name : Option Text
  pub filesize_bytes : Option ℕ
  pub content_type_hint : Option Text

abbrev name_of : Option BucketRecord → Option Text
name_of none = none
name_of (some b) = some b.name

abbrev shared_object : ShareLinkRecord → Db → Option ObjectRecord
shared_object share db =
    if is_file share.target_kind
    then get_object_by_filename_in_bucket share.target_key share.bucket_id db
    else none

abbrev size_hint : Option ObjectRecord → Option ℕ
size_hint none = none
size_hint (some o) = some o.filesize_bytes

abbrev format_hint : Option ObjectRecord → Option Text
format_hint none = none
format_hint (some o) = if is_empty o.file_format then none else some o.file_format

abbrev pub meta_response : ShareLinkRecord → Db → ShareMetaResponse
meta_response share db = record {
  target_kind = share.target_kind;
  target_key = share.target_key;
  display_name = display_name_for share;
  access_mode = share.access_mode;
  expires_at = share.expires_at;
  login_required = not (is_public share.access_mode);
  bucket_name = name_of (get_bucket_by_id share.bucket_id db);
  filesize_bytes = size_hint (shared_object share db);
  content_type_hint = format_hint (shared_object share db);
}

abbrev pub same_id : ℤ → ℕ → Bool
same_id z n = elim z [ pos m ↦ nat_beq m n | negsuc m ↦ false ]

abbrev pub grants : ShareLinkRecord → TokenError ⊎ MediaGrant → Bool
grants share (inr (share_grant share_id bucket_id exp)) =
    same_id share_id share.id && same_id bucket_id share.bucket_id
grants share _ = false

abbrev pub allowed_or_forbidden : Bool → Served (Unit {0})
allowed_or_forbidden true = served tt
allowed_or_forbidden false = refused forbidden

abbrev pub if_logged_in : Option AccountRecord → (ℕ → Bool) → Served (Unit {0})
if_logged_in none test = refused unauthorized
if_logged_in (some account) test = allowed_or_forbidden (test account.id)

abbrev is_none : Option AccountRecord → Bool
is_none none = true
is_none (some _) = false

abbrev pub or_denied : {S : Type 0} → ListDenied ⊎ Text → Handler S Text
or_denied (inl e) = refuse bad_request
or_denied (inr p) = read (λ _. p)

-- An absolute prefix under the root of the share.
abbrev pub absolute_prefix : {S : Type 0} → ShareLinkRecord → Text → Handler S Text
absolute_prefix share prefix = do
  p ← or_bad_request (normalize_folder_prefix prefix)
  demand (λ _. starts_with share.target_key p) bad_request
  read (λ _. p)

-- The root of the share, an absolute prefix, or one relative to the root.
abbrev pub list_prefix : {S : Type 0} → ShareLinkRecord → Text → Handler S Text
list_prefix share prefix =
    if is_empty prefix
    then read (λ _. share.target_key)
    else if starts_with share.target_key prefix
    then absolute_prefix share prefix
    else or_denied (resolve_list_prefix share (some prefix))

abbrev pub is_shown : ObjectRecord → Bool
is_shown o = not (ends_with (codes ".keep") o.original_filename)

abbrev pub retained : PrefixListResult → PrefixListResult
retained r = record r { objects = select is_shown r.objects }

module _ (b64_decode : Bytes → Option Bytes) (sign : Text → Text) (now : ℕ) where
  unfoldable pub access_token_grants_share : ShareLinkRecord → Option Text → Bool
  access_token_grants_share share none = false
  access_token_grants_share share (some raw) =
      not (is_empty (trim raw)) && grants share (verify_access_token b64_decode sign now (trim raw))

  abbrev pub authorize_mode :
      ShareAccessMode
      → ShareLinkRecord
      → Option AccountRecord
      → Option Text
      → Db
      → Served (Unit {0})
  authorize_mode public share auth access db = served tt
  authorize_mode bucket_readers share auth access db =
      if access_token_grants_share share access
      then served tt
      else if_logged_in auth (λ id. check_perm id share.bucket_id read_action db)
  authorize_mode specific_users share auth access db =
      if access_token_grants_share share access
      then served tt
      else if_logged_in auth (λ id. share_allows_account share.id id db)

  unfoldable pub authorize_share :
      ShareLinkRecord → Option AccountRecord → Option Text → Db → Served (Unit {0})
  authorize_share share auth access db = elim (share_is_usable share now) [
    | some reason ↦ refused gone
    | none ↦ authorize_mode share.access_mode share auth access db
  ]

  abbrev pub authorized :
      ShareLinkRecord → Option AccountRecord → Option Text → Handler Db (Unit {0})
  authorized share auth access db = (authorize_share share auth access db, db)

  unfoldable pub meta_for_share :
      ShareLinkRecord
      → Option AccountRecord
      → Option Text
      → Handler Db (StatusCode × ShareMetaResponse)
  meta_for_share share auth access = do
    authorized share auth access
    λ db. reply http_ok (meta_response share db) db

  -- Both answers to a request without a session are refusals: 410 or 401.
  abbrev pub share_meta :
      Option AccountRecord
      → Option Text
      → ShareLinkRecord
      → Handler Db (StatusCode × ShareMetaResponse)
  share_meta auth access share =
      if not (is_public share.access_mode)
        && (is_none auth && not (access_token_grants_share share access))
      then refuse (elim (share_is_usable share now) [ some reason ↦ gone | none ↦ unauthorized ])
      else meta_for_share share auth access

  unfoldable pub share_meta_by_token :
      Text → Option AccountRecord → Option Text → Handler Db (StatusCode × ShareMetaResponse)
  share_meta_by_token token auth access = do
    share ← lookup (get_share_by_token token) not_found
    share_meta auth access share

  unfoldable pub share_meta_by_code :
      Text → Option AccountRecord → Option Text → Handler Db (StatusCode × ShareMetaResponse)
  share_meta_by_code code auth access = do
    share ← lookup (get_share_by_short_code code) not_found
    share_meta auth access share

  unfoldable pub list_for_share :
      (Text → Text)
      → ShareLinkRecord
      → Option AccountRecord
      → Text
      → Option Text
      → Handler Db (StatusCode × PrefixListResult)
  list_for_share to_lowercase share auth prefix access = do
    authorized share auth access
    demand (λ _. not (is_file share.target_kind)) bad_request
    p ← list_prefix share prefix
    λ db.
        reply http_ok
          (retained (
            list_objects_with_prefix to_lowercase p (codes "/") none (some share.bucket_id) (pos 0)
              (pos 0) db))
          db

  unfoldable pub share_list_by_token :
      (Text → Text)
      → Text
      → Option AccountRecord
      → Text
      → Option Text
      → Handler Db (StatusCode × PrefixListResult)
  share_list_by_token to_lowercase token auth prefix access = do
    share ← lookup (get_share_by_token token) not_found
    list_for_share to_lowercase share auth prefix access

  unfoldable pub share_list_by_code :
      (Text → Text)
      → Text
      → Option AccountRecord
      → Text
      → Option Text
      → Handler Db (StatusCode × PrefixListResult)
  share_list_by_code to_lowercase code auth prefix access = do
    share ← lookup (get_share_by_short_code code) not_found
    list_for_share to_lowercase share auth prefix access

  -- The contents come from the lookup of the key in all buckets.
  unfoldable pub content_for_share :
      ShareLinkRecord
      → Option AccountRecord
      → Text
      → Option Text
      → Option Text
      → Handler Store Content
  content_for_share share auth raw_key access range = do
    on_db (authorized share auth access)
    key ← or_bad_request (normalize_object_key raw_key)
    demand (λ _. key_in_share_scope share key) forbidden
    lookup (λ (s : Store). get_object_by_filename_in_bucket key share.bucket_id s.db) not_found
    read (get_object_keyed_with_headers key range)

  unfoldable pub share_content_by_token :
      Text → Option AccountRecord → Text → Option Text → Option Text → Handler Store Content
  share_content_by_token token auth raw_key access range = do
    share ← lookup (λ (s : Store). get_share_by_token token s.db) not_found
    content_for_share share auth raw_key access range

  unfoldable pub share_content_by_code :
      Text → Option AccountRecord → Text → Option Text → Option Text → Handler Store Content
  share_content_by_code code auth raw_key access range = do
    share ← lookup (λ (s : Store). get_share_by_short_code code s.db) not_found
    content_for_share share auth raw_key access range
