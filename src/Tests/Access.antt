-- ===== src/Tests/Access.antt =====
-- Runs of the theorems on media tokens and shares.
use Prim.Native.Nat.{zero, suc}
use my_s.Rbac.Buckets.{get_bucket_by_name}
use my_s.Sql.Like.{compile, fold_case, like, like_escape, match_one, match_run, matches, replace}
use my_s.Objects.Listing.{
  add_row, add_rows, add_segments, base_name, classify, find, folder_entry_from_rows, level_objects,
  level_prefixes, list_objects_with_prefix, search_folder_prefixes, search_folders, set_insert,
}
use my_s.Server.Ranges.{parse_digits, parse_u64, parse_bytes_range, split_once}
use my_s.Server.Numbers.{decimal, parse_i64}
use my_s.Common.{
  Bytes, Option, Text, [], all, any, as_bytes, ap, arith, codes, constant_time_eq, differences, dot,
  encode_char, false, first, from_utf8, if◌then◌else◌, inr, is_whitespace, nat_beq, none, pos, refl,
  rsplit_once, select, some, split, starts_with, text_beq, trim, trim_end_matches,
  trim_start_matches, true, update, ℕ, ℤ, ◌+◌, ◌++◌, ◌∙◌, ◌∷◌, ◌≡◌, strip_prefix, decode, is_char,
  order_by, ends_with, contains, insert_sorted, text_leb,
}
use my_s.Server.Media.{
  before_now, grant_of_parts, mint_personal_token, mint_share_token, personal_grant,
  personal_ttl_secs, share_grant, verify_access_token, verify_sig, exp_unix,
}
use my_s.Server.Media.Minted.{mint_token-verify_access_token}
use my_s.Server.Media.Accepted.{verify_access_token-signed}
use my_s.Server.Media.Pieces.{is_plain}
use my_s.Database.{ok}
use my_s.Keys.{normalize_folder_prefix, normalize_object_key, valid_segment}
use my_s.Models.{BucketRecord, ObjectRecord, ShareLinkRecord, or_perms}
use my_s.Objects.Paging.{PrefixListResult, page_folder_object_lists}
use my_s.Objects.Rows.{get_object_by_filename, get_object_by_filename_in_bucket}
use my_s.Rbac.Permissions.{
  check_perm, effective_perms, account_owns_bucket, get_bucket_by_id, account_is_owner, or_all,
}
use my_s.Server.Content.{
  resolve_bucket_id, whole_file, require_bucket_perm, get_object_keyed_with_headers,
}
use my_s.Server.Http.{gone, http_ok, no_content, refused}
use my_s.Server.Sharing.{revoke_share_by}
use my_s.Server.Sharing.Access.{
  content_for_share, list_for_share, meta_for_share, same_id, share_content_by_token,
  authorize_share, access_token_grants_share,
}
use my_s.Server.Sharing.Granted.{may_see, share_content_by_token-granted}
use my_s.Server.Sharing.Listed.{is_outside, list_for_share-confined}
use my_s.Server.Sharing.Revoked.{revoke_share_by-gone}
use my_s.Server.Web.Media.{media_content_by_access}
use my_s.Server.Web.Media.Granted.{media_content_by_access-granted}
use my_s.Shares.Links.{
  get_share_by_id, get_share_by_token, revoke_share, share_allows_account, share_is_usable,
}
use my_s.Shares.Scope.{key_in_share_scope, usable, resolve_list_prefix}
use my_s.Tests.Uploads.{before_upload}
use my_s.Tests.Data.{cat, cat_key, folder_share, public_link, sample}

-- A signature that is the same for all, and an encoding of bytes in unary.
abbrev toy_sign : Text → Text
toy_sign payload = codes "ab"

abbrev unary : ℕ → Text → Text
unary zero t = 0x62 ∷ t
unary (suc n) t = 0x61 ∷ unary n t

abbrev toy_encode : Bytes → Text
toy_encode [] = []
toy_encode (n ∷ bytes) = unary n (toy_encode bytes)

abbrev cons_byte : ℕ → Option Bytes → Option Bytes
cons_byte n none = none
cons_byte n (some bytes) = some (n ∷ bytes)

abbrev counted_from : ℕ → Bytes → Option Bytes
counted_from n [] = some []
counted_from n (c ∷ bytes) =
    let ended = counted_from 0 bytes in
    let longer = counted_from (n + 1) bytes in if nat_beq c 0x62 then cons_byte n ended else longer

abbrev toy_decode : Bytes → Option Bytes
toy_decode = counted_from 0

unary-plain : (n : ℕ) (t : Text) → all is_plain t ≡ true → all is_plain (unary n t) ≡ true
unfolding all is_whitespace
unary-plain zero t h = h
unary-plain (suc n) t h = unary-plain n t h

toy_encode-plain : (bytes : Bytes) → all is_plain (toy_encode bytes) ≡ true
unfolding all
toy_encode-plain [] = refl
toy_encode-plain (n ∷ bytes) = unary-plain n (toy_encode bytes) (toy_encode-plain bytes)

counted_from-unary :
    (k n : ℕ) (t : Text)
    → counted_from k (as_bytes (unary n t)) ≡ cons_byte (k + n) (counted_from 0 (as_bytes t))
unfolding as_bytes encode_char
counted_from-unary k zero t = ap (λ m. cons_byte m (counted_from 0 (as_bytes t))) (omega arith)
counted_from-unary k (suc n) t =
    counted_from-unary (k + 1) n t
    ∙ ap (λ m. cons_byte m (counted_from 0 (as_bytes t))) (omega arith)

toy_decode-toy_encode : (bytes : Bytes) → toy_decode (as_bytes (toy_encode bytes)) ≡ some bytes
unfolding as_bytes
toy_decode-toy_encode [] = refl
toy_decode-toy_encode (n ∷ bytes) =
    counted_from-unary 0 n (toy_encode bytes)
    ∙ rw (toy_decode-toy_encode bytes) (ap (λ m. some (m ∷ bytes)) (omega arith))

abbrev personal_token : Text
personal_token = codes "v1.p.1.2." ++ (toy_encode (as_bytes cat_key) ++ codes ".500.ab")

abbrev revoked_link : ShareLinkRecord
revoked_link = record folder_share { revoked_at = some 200 }

mint_token-verify_access_token_example :
    (verify_access_token toy_decode toy_sign 300
        (mint_personal_token toy_encode toy_sign 200 1 2 cat_key).0
      ≡ inr (personal_grant (pos 1) (pos 2) cat_key (pos (200 + personal_ttl_secs))))
    × (verify_access_token toy_decode toy_sign 300 (codes "v1.s.1.2.605000.ab")
        ≡ inr (share_grant (pos 1) (pos 2) (pos 605000)))
unfolding mint_share_token all is_whitespace is_char decimal
mint_token-verify_access_token_example =
    mint_token-verify_access_token toy_sign toy_encode toy_decode (λ p. refl) toy_encode-plain
      toy_decode-toy_encode 200 300 1 2 cat_key folder_share (codes "v1.s.1.2.605000.ab") 605000
      (refl, (refl, (refl, tt))) (omega arith) (omega arith) (omega arith) (omega arith) refl
      (omega arith) (omega arith) (omega arith) (omega arith)

verify_access_token-signed_example :
    (payload : Text) × (sig : Text) × (trim (codes "v1.s.1.2.500.ab") ≡ payload ++ dot ∷ sig)
    × (as_bytes sig ≡ as_bytes (toy_sign payload))
    × (grant_of_parts toy_decode 300 (split dot payload)
        ≡ inr (share_grant (pos 1) (pos 2) (pos 500)))
    × (before_now (pos 500) 300 ≡ false)
unfolding verify_access_token trim rsplit_once verify_sig constant_time_eq as_bytes grant_of_parts
    split parse_i64 strip_prefix parse_digits exp_unix
verify_access_token-signed_example =
    verify_access_token-signed toy_decode toy_sign 300 (codes "v1.s.1.2.500.ab")
      (share_grant (pos 1) (pos 2) (pos 500)) refl

share_content_by_token-granted_example :
    (share : ShareLinkRecord) × (key : Text) × (held : ObjectRecord) × (get_share_by_token
        (codes "t2")
        sample
      ≡ some share)
    × (normalize_object_key cat_key ≡ ok key)
    × (usable 300 share ≡ true)
    × (may_see toy_decode toy_sign 300 share none none sample ≡ true)
    × (key_in_share_scope share key ≡ true)
    × (get_object_by_filename_in_bucket key share.bucket_id sample ≡ some held)
    × (get_object_by_filename key sample ≡ some cat)
unfolding share_content_by_token get_share_by_token first text_beq content_for_share authorize_share
    share_is_usable normalize_object_key trim_start_matches trim all split valid_segment
    key_in_share_scope get_object_by_filename_in_bucket get_object_keyed_with_headers
    get_object_by_filename any select is_whitespace rsplit_once starts_with strip_prefix
    trim_end_matches as_bytes constant_time_eq decode differences encode_char from_utf8 is_char
    or_perms account_is_owner account_owns_bucket check_perm effective_perms get_bucket_by_id or_all
    grant_of_parts verify_access_token verify_sig parse_i64 parse_bytes_range parse_digits parse_u64
    split_once access_token_grants_share share_allows_account
share_content_by_token-granted_example =
    share_content_by_token-granted toy_decode toy_sign 300 (codes "t2") none cat_key none none
      (whole_file cat) cat before_upload before_upload refl refl

abbrev listed : PrefixListResult
listed = record {
  prefix = codes "a/";
  delimiter = codes "/";
  common_prefixes = [];
  folders = [];
  objects = cat ∷ [];
  total = 1;
  offset = 0;
  limit = 1;
  has_more = false;
}

list_for_share-confined_example :
    (any (is_outside folder_share) (cat ∷ []) ≡ false) × (sample ≡ sample)
unfolding list_for_share authorize_share share_is_usable access_token_grants_share trim
    verify_access_token rsplit_once verify_sig constant_time_eq as_bytes grant_of_parts split
    parse_i64 strip_prefix parse_digits list_objects_with_prefix select page_folder_object_lists
    level_prefixes any first insert_sorted order_by text_leb all contains ends_with is_whitespace
    starts_with trim_end_matches trim_start_matches text_beq decode differences encode_char
    from_utf8 is_char normalize_folder_prefix valid_segment or_perms add_row add_rows add_segments
    base_name classify find folder_entry_from_rows level_objects search_folder_prefixes
    search_folders set_insert account_is_owner account_owns_bucket check_perm effective_perms
    get_bucket_by_id or_all share_allows_account resolve_list_prefix compile fold_case like
    like_escape match_one match_run matches replace
list_for_share-confined_example =
    list_for_share-confined toy_decode toy_sign (λ t. t) 300 folder_share none []
      (some (codes "v1.s.1.2.500.ab")) http_ok listed sample sample refl

revoke_share_by-gone_example :
    (meta_for_share toy_decode toy_sign 300 revoked_link none none sample ≡ (refused gone, sample))
    × (list_for_share toy_decode toy_sign 300 (λ t. t) revoked_link none cat_key none sample
        ≡ (refused gone, sample))
    × (content_for_share toy_decode toy_sign 300 revoked_link none cat_key none none before_upload
        ≡ (refused gone, before_upload))
unfolding revoke_share_by get_share_by_id first account_is_owner any require_bucket_perm check_perm
    effective_perms account_owns_bucket get_bucket_by_id revoke_share update
revoke_share_by-gone_example =
    revoke_share_by-gone toy_decode toy_sign (λ t. t) 200 1 1 (no_content, tt) sample
      (record sample { shares = revoked_link ∷ public_link ∷ [] }) revoked_link refl refl 300 none
      cat_key none none before_upload

media_content_by_access-granted_example :
    (key : Text) × (b : BucketRecord) × (account_id : ℤ) × (bucket_id : ℤ) × (tok_key : Text)
    × (exp : ℤ) × (held : ObjectRecord) × (normalize_object_key cat_key ≡ ok key)
    × (verify_access_token toy_decode toy_sign 300 personal_token
        ≡ inr (personal_grant account_id bucket_id tok_key exp))
    × (text_beq tok_key key ≡ true)
    × (resolve_bucket_id (some (codes "p")) sample ≡ some b)
    × (same_id bucket_id b.id ≡ true)
    × (get_object_by_filename_in_bucket key b.id sample ≡ some held)
    × (get_object_by_filename key sample ≡ some cat)
unfolding media_content_by_access normalize_object_key trim_start_matches trim all split
    valid_segment verify_access_token as_bytes rsplit_once verify_sig constant_time_eq
    grant_of_parts parse_i64 strip_prefix parse_digits from_utf8 resolve_bucket_id any first
    is_whitespace trim_end_matches text_beq decode differences encode_char is_char
    get_object_by_filename get_object_by_filename_in_bucket get_bucket_by_name
    get_object_keyed_with_headers parse_bytes_range parse_u64 split_once
media_content_by_access-granted_example =
    media_content_by_access-granted toy_decode toy_sign 300 cat_key (some (codes "p"))
      personal_token none (whole_file cat) cat before_upload before_upload refl refl
