-- ===== src/Server/Media.antt =====
-- src/server/media_access.rs: signed access tokens for media links, and the paths of the links. The
-- signature, HMAC-SHA256 of the secret in hexadecimal, and the base64 encoding of an object's key
-- are parameters. Times are in seconds.
pub mod Pieces
pub mod Minted
pub mod Accepted
use my_s.Common.{
  Bool, Bytes, List, Option, Text, [], as_bytes, codes, constant_time_eq, contains_char, dot,
  from_utf8, if◌then◌else◌, inl, inr, is_empty, join, leb, ltb, map, min, nat_beq, none, not,
  rsplit_once, slash, some, split, text_beq, trim, ℕ, ℤ, pos, negsuc, true, false, ◌&&◌, ◌%◌, ◌*◌,
  ◌+◌, ◌++◌, ◌/◌, ◌||◌, ◌∷◌, ◌⊎◌,
}
use my_s.Models.{ShareAccessMode, ShareLinkRecord, is_public}
use my_s.Server.Numbers.{decimal, parse_i64}
use my_s.Shares.Scope.{share_url_path}

pub data MediaGrant : Type 0 where
  share_grant : ℤ → ℤ → ℤ → MediaGrant
  personal_grant : ℤ → ℤ → Text → ℤ → MediaGrant

unfoldable pub exp_unix : MediaGrant → ℤ
exp_unix (share_grant share_id bucket_id exp) = exp
exp_unix (personal_grant account_id bucket_id key exp) = exp

pub data TokenError : Type 0 where
  share_expired empty_token malformed_token invalid_signature : TokenError
  bad_share_id bad_bucket_id bad_account_id bad_exp token_expired : TokenError
  bad_key_encoding bad_key_utf8 unknown_format : TokenError

module _ {A B : Type 0} where
  infixl 10 ◌>>=◌ ◌>>◌
  abbrev ◌>>=◌ : TokenError ⊎ A → (A → TokenError ⊎ B) → TokenError ⊎ B
  inl e >>= f = inl e
  inr a >>= f = f a

  abbrev ◌>>◌ : TokenError ⊎ A → TokenError ⊎ B → TokenError ⊎ B
  m >> n = m >>= λ _. n

abbrev pub given_or_err : {A : Type 0} → Option A → TokenError → TokenError ⊎ A
given_or_err none e = inl e
given_or_err (some a) e = inr a

abbrev pub check : Bool → TokenError → TokenError ⊎ Unit {0}
check true e = inr tt
check false e = inl e

-- exp < now
abbrev pub before_now : ℤ → ℕ → Bool
before_now (pos t) now = ltb t now
before_now (negsuc t) now = true

abbrev pub personal_ttl_secs : ℕ
personal_ttl_secs = 24 * 3600

abbrev pub share_token_max_secs : ℕ
share_token_max_secs = 7 * 24 * 3600

abbrev pub share_exp : Option ℕ → ℕ → ℕ
share_exp none max_exp = max_exp
share_exp (some e) max_exp = if ltb e max_exp then e else max_exp

unfoldable pub share_needs_access_token : ShareAccessMode → Bool
share_needs_access_token mode = not (is_public mode)

-- `v1.s.{share_id}.{bucket_id}.{exp}`
abbrev pub share_payload : ℕ → ℕ → ℕ → Text
share_payload share_id bucket_id exp =
    codes "v1"
    ++ dot
      ∷ (codes "s" ++ dot ∷ (decimal share_id ++ dot ∷ (decimal bucket_id ++ dot ∷ decimal exp)))

-- `v1.p.{account_id}.{bucket_id}.{key_b64}.{exp}`
abbrev pub personal_payload : ℕ → ℕ → Text → ℕ → Text
personal_payload account_id bucket_id key_b64 exp =
    codes "v1"
    ++ dot
      ∷ (codes "p"
          ++ dot
            ∷ (decimal account_id
                ++ dot ∷ (decimal bucket_id ++ dot ∷ (key_b64 ++ dot ∷ decimal exp))))

module _ (sign : Text → Text) where
  unfoldable pub verify_sig : Text → Text → Bool
  verify_sig payload sig_hex = constant_time_eq (as_bytes (sign payload)) (as_bytes sig_hex)

  abbrev pub signed : Text → Text
  signed payload = payload ++ dot ∷ sign payload

  unfoldable pub mint_share_token : ℕ → ShareLinkRecord → TokenError ⊎ (Text × ℕ)
  mint_share_token now share =
      let exp = share_exp share.expires_at (now + share_token_max_secs) in
      if leb exp now
      then inl share_expired
      else inr (signed (share_payload share.id share.bucket_id exp), exp)

  abbrev pub verified_payload : Text → TokenError ⊎ Text
  verified_payload token = do
    check (not (is_empty token)) empty_token
    (payload, sig) ← given_or_err (rsplit_once dot token) malformed_token
    check (verify_sig payload sig) invalid_signature
    inr payload

module _ (b64_encode : Bytes → Text) (sign : Text → Text) where
  unfoldable pub mint_personal_token : ℕ → ℕ → ℕ → Text → Text × ℕ
  mint_personal_token now account_id bucket_id key =
      let exp = now + personal_ttl_secs in
      (signed sign (personal_payload account_id bucket_id (b64_encode (as_bytes key)) exp), exp)

abbrev pub share_parts : ℕ → Text → Text → Text → TokenError ⊎ MediaGrant
share_parts now share_id bucket_id exp = do
  s ← given_or_err (parse_i64 share_id) bad_share_id
  b ← given_or_err (parse_i64 bucket_id) bad_bucket_id
  e ← given_or_err (parse_i64 exp) bad_exp
  check (not (before_now e now)) token_expired
  inr (share_grant s b e)

module _ (b64_decode : Bytes → Option Bytes) where
  abbrev pub personal_parts : ℕ → Text → Text → Text → Text → TokenError ⊎ MediaGrant
  personal_parts now account_id bucket_id key_b64 exp = do
    a ← given_or_err (parse_i64 account_id) bad_account_id
    b ← given_or_err (parse_i64 bucket_id) bad_bucket_id
    e ← given_or_err (parse_i64 exp) bad_exp
    check (not (before_now e now)) token_expired
    key_bytes ← given_or_err (b64_decode (as_bytes key_b64)) bad_key_encoding
    key ← given_or_err (from_utf8 key_bytes) bad_key_utf8
    inr (personal_grant a b key e)

  -- The match on the parts: five of a share's token, six of a personal one.
  unfoldable pub grant_of_parts : ℕ → List Text → TokenError ⊎ MediaGrant
  unfolding text_beq
  grant_of_parts now (v ∷ k ∷ a ∷ b ∷ e ∷ []) =
      if text_beq v (codes "v1") && text_beq k (codes "s")
      then share_parts now a b e
      else inl unknown_format
  grant_of_parts now (v ∷ k ∷ a ∷ b ∷ key ∷ e ∷ []) =
      if text_beq v (codes "v1") && text_beq k (codes "p")
      then personal_parts now a b key e
      else inl unknown_format
  grant_of_parts now _ = inl unknown_format

  unfoldable pub verify_access_token : (Text → Text) → ℕ → Text → TokenError ⊎ MediaGrant
  verify_access_token sign now token = do
    payload ← verified_payload sign (trim token)
    grant_of_parts now (split dot payload)

-- `b'A'..=b'Z' | b'a'..=b'z' | b'0'..=b'9' | b'-' | b'_' | b'.' | b'~'`
abbrev pub is_unreserved : ℕ → Bool
is_unreserved b =
    (leb 0x41 b && leb b 0x5a)
    || (leb 0x61 b && leb b 0x7a)
    || (leb 0x30 b && leb b 0x39)
    || nat_beq b 0x2d
    || nat_beq b 0x5f
    || nat_beq b 0x2e
    || nat_beq b 0x7e

-- A digit of `{:02X}`
abbrev pub hex_upper : ℕ → ℕ
hex_upper d = if ltb d 10 then 0x30 + d else 0x37 + d

abbrev pub percent_encoded : ℕ → Text
percent_encoded b =
    if is_unreserved b then b ∷ [] else 0x25 ∷ hex_upper (b / 16) ∷ hex_upper (b % 16) ∷ []

unfoldable pub urlencode_bytes : Bytes → Text
urlencode_bytes [] = []
urlencode_bytes (b ∷ bs) = percent_encoded b ++ urlencode_bytes bs

unfoldable pub urlencoding_encode : Text → Text
unfolding urlencode_bytes
urlencoding_encode s = urlencode_bytes (as_bytes s)

unfoldable pub encode_key_path : Text → Text
encode_key_path key = join slash (map urlencoding_encode (split slash key))

unfoldable pub share_content_path : ShareLinkRecord → Text → Text
share_content_path share key = elim share.short_code [
  | some code ↦ codes "/api/v1/shares/by-code/" ++ code ++ codes "/content/" ++ encode_key_path key
  | none ↦
      codes "/api/v1/shares/by-token/" ++ share.token ++ codes "/content/" ++ encode_key_path key
]

unfoldable pub share_page_path : ShareLinkRecord → Text
share_page_path share = share_url_path share

unfoldable pub personal_content_path : Text → Text → Text
personal_content_path bucket key =
    codes "/api/v1/media/content/"
    ++ encode_key_path key
    ++ codes "?bucket="
    ++ urlencoding_encode bucket

abbrev separator : Text → ℕ
separator path = if contains_char 0x3f path then 0x26 else 0x3f

unfoldable pub append_access_query : Text → Text → Text
append_access_query path access =
    path ++ separator path ∷ (codes "access=" ++ urlencoding_encode access)
