-- ===== src/Server/Signatures/Signed.antt =====
-- src/server/auth_sigv4.rs: which requests are let through.
use my_s.Common.{
  Bool-cases, Bytes, Option-cases, Text, arith, as_bytes, codes, constant_time_eq_iff, false, inl,
  inr, none, refl, some, starts_with, strip_prefix, text_beq, text_beq_iff, ◌≡◌, ◌⊎◌, [], ◌∷◌,
}
use my_s.Server.Http.{Handler, forbidden, refused}
use my_s.Server.Signatures.{
  AuthParts, Request, SigError, authorization, authorized_by, expected_signature, header_str,
  parse_authorization, require_sigv4, validate_sigv4,
}

Parsed-cases :
    (r : SigError ⊎ AuthParts)
    → ((e : SigError) × (r ≡ inl e)) ⊎ ((parts : AuthParts) × (r ≡ inr parts))
Parsed-cases (inl e) = inl (e, refl)
Parsed-cases (inr parts) = inr (parts, refl)

strip_prefix-starts_with : (p s : Text) → starts_with p s ≡ false → strip_prefix p s ≡ none
unfolding starts_with strip_prefix
strip_prefix-starts_with [] s h = ground arith
strip_prefix-starts_with (c ∷ p) [] h = refl
strip_prefix-starts_with (c ∷ p) (d ∷ s) h = ground (arith, strip_prefix-starts_with p s)

Validated-cases : (r : SigError ⊎ Unit {0}) → ((e : SigError) × (r ≡ inl e)) ⊎ (r ≡ inr tt)
Validated-cases (inl e) = inl (e, refl)
Validated-cases (inr tt) = inr refl

-- Without the name of the algorithm no parts are read.
parse-prefixed :
    (auth : Text) (parts : AuthParts)
    → starts_with (codes "AWS4-HMAC-SHA256 ") auth ≡ false
    → ¬ (parse_authorization auth ≡ inr parts)
unfolding parse_authorization
parse-prefixed auth parts e f =
    absurd (ground (arith, f, strip_prefix-starts_with (codes "AWS4-HMAC-SHA256 ") auth e))

module _ (hmac : Bytes → Bytes → Bytes) (sha256 : Bytes → Bytes) (hex : Bytes → Text)
    (access_key_id secret : Text) where
  -- The header parses, names the configured access key, the request has a date, and the bytes of the
  -- signature are those of the one that is computed of the request with the configured secret.
  abbrev pub IsSigned : Request → Text → Type 0
  IsSigned req auth =
      (parts : AuthParts) × (amz_date : Text) × (parse_authorization auth ≡ inr parts)
      × (parts.access_key ≡ access_key_id)
      × (header_str req (codes "x-amz-date") ≡ some amz_date)
      × (as_bytes (expected_signature hmac sha256 hex secret req parts amz_date)
          ≡ as_bytes parts.signature)

  validated-IsSigned :
      (req : Request) (auth : Text)
      → validate_sigv4 hmac sha256 hex access_key_id secret req auth ≡ inr tt
      → IsSigned req auth
  unfolding validate_sigv4
  validated-IsSigned req auth h = elim (Bool-cases (starts_with (codes "AWS4-HMAC-SHA256 ") auth)) [
    | inr e ↦ absurd (ground (arith, e))
    | inl e ↦ elim (Parsed-cases (parse_authorization auth)) [
      | inl (x, f) ↦ absurd (ground (arith, e, f))
      | inr (parts, f) ↦ elim (Bool-cases (text_beq parts.access_key access_key_id)) [
        | inr g ↦ absurd (ground (arith, e, f, g))
        | inl g ↦ elim (Option-cases (header_str req (codes "x-amz-date"))) [
          | inl k ↦ absurd (ground (arith, e, f, g, k))
          | inr (amz_date, k) ↦ (
            parts,
            amz_date,
            f,
            (text_beq_iff parts.access_key access_key_id).0 g,
            k,
            (constant_time_eq_iff
                  (as_bytes (expected_signature hmac sha256 hex secret req parts amz_date))
                  (as_bytes parts.signature)).0
                (ground (arith, e, f, g, k)),
          )
        ]
      ]
    ]
  ]

  IsSigned-validated :
      (req : Request) (auth : Text)
      → IsSigned req auth
      → validate_sigv4 hmac sha256 hex access_key_id secret req auth ≡ inr tt
  unfolding validate_sigv4
  IsSigned-validated req auth (parts, amz_date, f, g, k, l) =
      elim (Bool-cases (starts_with (codes "AWS4-HMAC-SHA256 ") auth)) [
        | inr e ↦ absurd (parse-prefixed auth parts e f)
        | inl e ↦
            rw (e, f, (text_beq_iff parts.access_key access_key_id).1 g, k)
              (rw
                ((constant_time_eq_iff
                    (as_bytes (expected_signature hmac sha256 hex secret req parts amz_date))
                    (as_bytes parts.signature)).1
                  l)
                refl)
      ]

  authorized_by-IsSigned :
      {S A : Type 0} (req : Request) (auth : Text) (next : Handler S A) (s : S)
      → (IsSigned req auth
          × (authorized_by hmac sha256 hex access_key_id secret req auth next s ≡ next s))
        ⊎ (¬ IsSigned req auth
            × (authorized_by hmac sha256 hex access_key_id secret req auth next s
                ≡ (refused forbidden, s)))
  unfolding starts_with
  authorized_by-IsSigned req [] next s = inr (λ t. parse-prefixed [] t.0 refl t.2, refl)
  authorized_by-IsSigned req (c ∷ auth) next s =
      elim (Validated-cases (validate_sigv4 hmac sha256 hex access_key_id secret req (c ∷ auth))) [
        | inl (x, e) ↦
            inr (λ t. absurd (ground (arith, e, IsSigned-validated req (c ∷ auth) t)), rw e refl)
        | inr e ↦ inl (validated-IsSigned req (c ∷ auth) e, rw e refl)
      ]

  -- Where signatures are asked for, a request is either signed - its header parses, names the
  -- configured access key, the request has a date, and the signature is, byte for byte, the one that
  -- is computed of the request with the configured secret -, and is answered as if there was no check;
  -- or it is not, and is answered 403 with nothing changed.
  pub require_sigv4-IsSigned :
      {S A : Type 0} (req : Request) (next : Handler S A) (s : S)
      → (IsSigned req (authorization req)
          × (require_sigv4 hmac sha256 hex access_key_id secret false req next s ≡ next s))
        ⊎ (¬ IsSigned req (authorization req)
            × (require_sigv4 hmac sha256 hex access_key_id secret false req next s
                ≡ (refused forbidden, s)))
  unfolding require_sigv4
  require_sigv4-IsSigned req next s = authorized_by-IsSigned req (authorization req) next s
