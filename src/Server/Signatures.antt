-- ===== src/Server/Signatures.antt =====
-- src/server/auth_sigv4.rs: the signatures of the requests to /storage/objects. HMAC-SHA256, SHA-256 and
-- hexadecimal digits are parameters. Header values are those that are text, under names in lower case.
pub mod Signed
use my_s.Common.{
  Bool, Bytes, List, Option, Text, [], as_bytes, codes, constant_time_eq, drop, if◌then◌else◌, inl,
  inr, is_empty, is_whitespace, join, map, nat_beq, none, not, select, slash, some, split,
  starts_with, strip_prefix, take, text_beq, trim, true, false, ℕ, ◌++◌, ◌||◌, ◌∷◌, ◌⊎◌,
}
use my_s.Server.Auth.{semicolon}
use my_s.Server.Http.{Handler, forbidden, refuse}
use my_s.Sql.Like.{fold_case}

pub record Request : Type 0 where
  pub method : Text
  pub path : Text
  pub query : Option Text
  pub headers : List (Text × Text)

pub data SigError : Type 0 where
  signature_mismatch missing_date invalid_algorithm malformed_header : SigError

pub record AuthParts : Type 0 where
  pub access_key : Text
  pub region : Text
  pub service : Text
  pub signed_headers : Text
  pub signature : Text

abbrev no_parts : AuthParts
no_parts = record {
  access_key = [];
  region = codes "us-east-1";
  service = codes "s3";
  signed_headers = [];
  signature = [];
}

abbrev text_or : Text → Option Text → Text
text_or d none = d
text_or d (some t) = t

abbrev segment_or : Text → List Text → Text
segment_or d [] = d
segment_or d (s ∷ segments) = s

abbrev credential : List Text → AuthParts → AuthParts
credential segments parts = record parts {
  access_key = segment_or [] segments;
  region = segment_or (codes "us-east-1") (drop 2 segments);
  service = segment_or (codes "s3") (drop 3 segments);
}

abbrev read_part : Text → AuthParts → AuthParts
read_part part parts = elim (strip_prefix (codes "Credential=") part) [
  | some cred ↦ credential (split slash cred) parts
  | none ↦ elim (strip_prefix (codes "SignedHeaders=") part) [
    | some names ↦ record parts { signed_headers = names }
    | none ↦ elim (strip_prefix (codes "Signature=") part) [
      | some sig ↦ record parts { signature = sig }
      | none ↦ parts
    ]
  ]
]

unfoldable pub read_parts : List Text → AuthParts → AuthParts
read_parts [] parts = parts
read_parts (p ∷ ps) parts = read_parts ps (read_part (trim p) parts)

abbrev complete_parts : AuthParts → SigError ⊎ AuthParts
complete_parts parts =
    if is_empty parts.access_key || is_empty parts.signed_headers || is_empty parts.signature
    then inl malformed_header
    else inr parts

unfoldable pub parse_authorization : Text → SigError ⊎ AuthParts
parse_authorization authorization = elim (strip_prefix (codes "AWS4-HMAC-SHA256 ") authorization) [
  | none ↦ inl invalid_algorithm
  | some rest ↦ complete_parts (read_parts (split 0x2c rest) no_parts)
]

unfoldable pub find_header : Text → List (Text × Text) → Option Text
find_header name [] = none
find_header name ((n, value) ∷ hs) = if text_beq n name then some value else find_header name hs

abbrev pub header_str : Request → Text → Option Text
header_str req name = find_header name req.headers

abbrev onto_word : ℕ → List Text → List Text
onto_word c [] = (c ∷ []) ∷ []
onto_word c (w ∷ ws) = (c ∷ w) ∷ ws

unfoldable pub split_blanks : Text → List Text
split_blanks [] = [] ∷ []
split_blanks (c ∷ s) =
    let rest = split_blanks s in if is_whitespace c then [] ∷ rest else onto_word c rest

unfoldable pub split_whitespace : Text → List Text
split_whitespace s = select (λ w. not (is_empty w)) (split_blanks s)

abbrev newline : ℕ
newline = 0x0a

abbrev canonical_header : Request → Text → Text
canonical_header req key =
    key ++ 0x3a ∷ (join 0x20 (split_whitespace (text_or [] (header_str req key))) ++ newline ∷ [])

unfoldable pub canonical_lines : Request → List Text → Text
canonical_lines req [] = []
canonical_lines req (name ∷ names) =
    canonical_header req (map fold_case (trim name)) ++ canonical_lines req names

unfoldable pub build_canonical_headers : Request → Text → Text
build_canonical_headers req signed_headers = canonical_lines req (split semicolon signed_headers)

abbrev pub canonical_request : Request → AuthParts → Text
canonical_request req parts = join newline (
    req.method
    ∷ req.path
    ∷ text_or [] req.query
    ∷ build_canonical_headers req parts.signed_headers
    ∷ parts.signed_headers
    ∷ text_or (codes "UNSIGNED-PAYLOAD") (header_str req (codes "x-amz-content-sha256"))
    ∷ [])

abbrev pub authorization : Request → Text
authorization req = text_or [] (header_str req (codes "authorization"))

module _ (hmac : Bytes → Bytes → Bytes) (sha256 : Bytes → Bytes) (hex : Bytes → Text) where
  unfoldable pub derive_signing_key : Text → Text → Text → Text → Bytes
  derive_signing_key secret date region service =
      let k_date = hmac (as_bytes (codes "AWS4" ++ secret)) (as_bytes date) in
      let k_region = hmac k_date (as_bytes region) in
      let k_service = hmac k_region (as_bytes service) in
      hmac k_service (as_bytes (codes "aws4_request"))

  abbrev pub string_to_sign : Request → AuthParts → Text → Text
  string_to_sign req parts amz_date = join newline (
      codes "AWS4-HMAC-SHA256"
      ∷ amz_date
      ∷ join slash (take 8 amz_date ∷ parts.region ∷ parts.service ∷ codes "aws4_request" ∷ [])
      ∷ hex (sha256 (as_bytes (canonical_request req parts)))
      ∷ [])

  abbrev pub expected_signature : Text → Request → AuthParts → Text → Text
  expected_signature secret req parts amz_date = hex (
      hmac (derive_signing_key secret (take 8 amz_date) parts.region parts.service)
        (as_bytes (string_to_sign req parts amz_date)))

  module _ (access_key_id secret : Text) where
    abbrev checked_signature : Request → AuthParts → Option Text → SigError ⊎ Unit {0}
    checked_signature req parts none = inl missing_date
    checked_signature req parts (some amz_date) =
        if constant_time_eq (as_bytes (expected_signature secret req parts amz_date))
          (as_bytes parts.signature)
        then inr tt
        else inl signature_mismatch

    abbrev checked_parts : Request → SigError ⊎ AuthParts → SigError ⊎ Unit {0}
    checked_parts req (inl e) = inl e
    checked_parts req (inr parts) =
        if text_beq parts.access_key access_key_id
        then checked_signature req parts (header_str req (codes "x-amz-date"))
        else inl signature_mismatch

    unfoldable pub validate_sigv4 : Request → Text → SigError ⊎ Unit {0}
    validate_sigv4 req authorization =
        if starts_with (codes "AWS4-HMAC-SHA256 ") authorization
        then checked_parts req (parse_authorization authorization)
        else inl signature_mismatch

    abbrev pub or_forbidden : {S A : Type 0} → SigError ⊎ Unit {0} → Handler S A → Handler S A
    or_forbidden (inl e) next = refuse forbidden
    or_forbidden (inr _) next = next

    abbrev pub authorized_by : {S A : Type 0} → Request → Text → Handler S A → Handler S A
    authorized_by req auth next =
        if is_empty auth then refuse forbidden else or_forbidden (validate_sigv4 req auth) next

    -- Signatures are `optional` if the environment says so; `next` is the handler of the request.
    unfoldable pub require_sigv4 : {S A : Type 0} → Bool → Request → Handler S A → Handler S A
    require_sigv4 optional req next =
        if optional then next else authorized_by req (authorization req) next
