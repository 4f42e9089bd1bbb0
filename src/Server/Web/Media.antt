-- ===== src/Server/Web/Media.antt =====
-- src/server/web_routes.rs: media links, and the contents that they give access to.
pub mod Granted
use my_s.Common.{
  Bool, Bytes, Option, Text, codes, if◌then◌else◌, inl, inr, nat_beq, none, some, text_beq, ℕ, ℤ,
  ◌⊎◌,
}
use my_s.Database.{Db}
use my_s.Keys.{normalize_folder_prefix, normalize_object_key}
use my_s.Models.{
  BucketRecord, ShareAccessMode, ShareLinkRecord, ShareTargetKind, file, folder, read_action,
}
use my_s.Objects.Rows.{get_object_by_filename_in_bucket}
use my_s.Server.Blobs.{Store}
use my_s.Server.Content.{
  Content, get_object_keyed_with_headers, require_bucket_perm, resolve_bucket_id,
}
use my_s.Server.Http.{
  Handler, StatusCode, conflict, demand, forbidden, http_ok, internal_server_error, lookup,
  not_found, read, refuse, reply, unauthorized, ◌>>=◌, ◌>>◌,
}
use my_s.Server.Media.{
  MediaGrant, TokenError, append_access_query, mint_personal_token, mint_share_token,
  personal_content_path, personal_grant, share_content_path, share_grant, share_needs_access_token,
  share_page_path, verify_access_token,
}
use my_s.Server.Sharing.{or_bad_request}
use my_s.Server.Sharing.Access.{same_id}
use my_s.Shares.Scope.{
  list_folder_shares_for_prefix, list_shares_covering_key, prefer_share_for_link,
}

pub record MediaLinkResponse : Type 0 where
  pub url : Text
  pub path : Text
  pub access_mode : Option ShareAccessMode
  pub auth : Text
  pub expires_at : Option ℕ

abbrev pub link_response : Text → Option ShareAccessMode → Text → Option ℕ → MediaLinkResponse
link_response path mode auth expires_at = record {
  url = path;
  path = path;
  access_mode = mode;
  auth = auth;
  expires_at = expires_at;
}

abbrev pub token_link :
    Text → ShareLinkRecord → TokenError ⊎ (Text × ℕ) → Handler Db (StatusCode × MediaLinkResponse)
token_link path share (inl e) = refuse internal_server_error
token_link path share (inr (token, exp)) = reply http_ok (
    link_response (append_access_query path token) (some share.access_mode) (codes "token")
      (some exp))

module _ (b64_encode : Bytes → Text) (sign : Text → Text) (now : ℕ) where
  -- The link of a share: with a token unless the share is public.
  abbrev pub share_link : Text → ShareLinkRecord → Handler Db (StatusCode × MediaLinkResponse)
  share_link path share =
      if share_needs_access_token share.access_mode
      then token_link path share (mint_share_token sign now share)
      else reply http_ok
          (link_response path (some share.access_mode) (codes "none") share.expires_at)

  abbrev pub personal_link : ℕ → BucketRecord → Text → Handler Db (StatusCode × MediaLinkResponse)
  personal_link auth b key =
      let (token, exp) = mint_personal_token b64_encode sign now auth b.id key in
      reply http_ok (
        link_response (append_access_query (personal_content_path b.name key) token) none
          (codes "token") (some exp))

  abbrev pub covering_share : ℕ → Text → Db → Option ShareLinkRecord
  covering_share bucket_id key db =
      prefer_share_for_link now (list_shares_covering_key bucket_id key db) (some key)

  abbrev pub file_link :
      ℕ → BucketRecord → Text → Option ShareLinkRecord → Handler Db (StatusCode × MediaLinkResponse)
  file_link auth b key (some share) = share_link (share_content_path share key) share
  file_link auth b key none = personal_link auth b key

  abbrev pub link_for :
      ℕ → BucketRecord → ShareTargetKind → Text → Handler Db (StatusCode × MediaLinkResponse)
  link_for auth b folder raw_key = do
    prefix ← or_bad_request (normalize_folder_prefix raw_key)
    share ←
        lookup (λ db. prefer_share_for_link now (list_folder_shares_for_prefix b.id prefix db) none)
          conflict
    share_link (share_page_path share) share
  link_for auth b file raw_key = do
    key ← or_bad_request (normalize_object_key raw_key)
    lookup (get_object_by_filename_in_bucket key b.id) not_found
    share ← read (covering_share b.id key)
    file_link auth b key share

  unfoldable pub create_media_link :
      ℕ → Option Text → Text → ShareTargetKind → Handler Db (StatusCode × MediaLinkResponse)
  create_media_link auth bucket raw_key kind = do
    b ← lookup (resolve_bucket_id bucket) not_found
    demand (require_bucket_perm auth b.id read_action) forbidden
    link_for auth b kind raw_key

abbrev pub accepted_or : TokenError ⊎ MediaGrant → Handler Store MediaGrant
accepted_or (inl e) = refuse unauthorized
accepted_or (inr grant) = read (λ _. grant)

abbrev pub personal_or : MediaGrant → Handler Store (ℤ × Text)
personal_or (share_grant share_id bucket_id exp) = refuse unauthorized
personal_or (personal_grant account_id bucket_id key exp) = read (λ _. (bucket_id, key))

module _ (b64_decode : Bytes → Option Bytes) (sign : Text → Text) (now : ℕ) where
  -- No session is asked for: the token stands for the account that made it.
  unfoldable pub media_content_by_access :
      Text → Option Text → Text → Option Text → Handler Store Content
  media_content_by_access raw_key bucket access range = do
    key ← or_bad_request (normalize_object_key raw_key)
    grant ← accepted_or (verify_access_token b64_decode sign now access)
    (bucket_id, tok_key) ← personal_or grant
    demand (λ _. text_beq tok_key key) forbidden
    b ← lookup (λ (s : Store). resolve_bucket_id bucket s.db) not_found
    demand (λ _. same_id bucket_id b.id) forbidden
    lookup (λ (s : Store). get_object_by_filename_in_bucket key b.id s.db) not_found
    read (get_object_keyed_with_headers key range)
