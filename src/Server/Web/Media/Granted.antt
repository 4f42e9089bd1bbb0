-- ===== src/Server/Web/Media/Granted.antt =====
-- src/server/web_routes.rs: what a media token gives access to.
use my_s.Common.{
  Bool-cases, Bytes, Option, Option-cases, Text, ap, arith, inl, inr, refl, some, text_beq, true, ℕ,
  ℤ, ◌∙◌, ◌≡◌, ◌⊎◌,
}
use my_s.Database.{Result-cases, ok}
use my_s.Keys.{normalize_object_key}
use my_s.Models.{BucketRecord, ObjectRecord}
use my_s.Objects.Rows.{get_object_by_filename, get_object_by_filename_in_bucket}
use my_s.Server.Blobs.{Store}
use my_s.Server.Content.{Content, get_object_keyed_with_headers, resolve_bucket_id}
use my_s.Server.Content.Served
use my_s.Server.Content.Served.{keyed-served}
use my_s.Server.Http.{Handler, demand, forbidden, lookup, not_found, read, served, ◌>>=◌, ◌>>◌}
use my_s.Server.Media.{MediaGrant, TokenError, personal_grant, share_grant, verify_access_token}
use my_s.Server.Sharing.Access.{same_id}
use my_s.Server.Web.Media.{media_content_by_access}

Checked-cases :
    (r : TokenError ⊎ MediaGrant)
    → ((x : TokenError) × (r ≡ inl x))
      ⊎ ((share_id : ℤ) × (bucket_id : ℤ) × (exp : ℤ) × (r
            ≡ inr (share_grant share_id bucket_id exp)))
      ⊎ ((account_id : ℤ) × (bucket_id : ℤ) × (key : Text) × (exp : ℤ) × (r
            ≡ inr (personal_grant account_id bucket_id key exp)))
Checked-cases (inl x) = inl (x, refl)
Checked-cases (inr (share_grant share_id bucket_id exp)) =
    inr (inl (share_id, bucket_id, exp, refl))
Checked-cases (inr (personal_grant account_id bucket_id key exp)) =
    inr (inr (account_id, bucket_id, key, exp, refl))

-- What follows in the handler once its token is accepted.
abbrev opened_by : ℤ → Text → Text → Option Text → Option Text → Handler Store Content
opened_by bucket_id tok_key key bucket range = do
  demand (λ _. text_beq tok_key key) forbidden
  b ← lookup (λ (s : Store). resolve_bucket_id bucket s.db) not_found
  demand (λ _. same_id bucket_id b.id) forbidden
  lookup (λ (s : Store). get_object_by_filename_in_bucket key b.id s.db) not_found
  read (get_object_keyed_with_headers key range)

opened_by-granted :
    (bucket_id : ℤ) (tok_key key : Text) (bucket range : Option Text) (c : Content)
    (o : ObjectRecord) (s s' : Store)
    → opened_by bucket_id tok_key key bucket range s ≡ (served c, s')
    → Served.served c ≡ some o
    → (b : BucketRecord) × (held : ObjectRecord) × (text_beq tok_key key ≡ true)
      × (resolve_bucket_id bucket s.db ≡ some b)
      × (same_id bucket_id b.id ≡ true)
      × (get_object_by_filename_in_bucket key b.id s.db ≡ some held)
      × (get_object_by_filename key s.db ≡ some o)
opened_by-granted bucket_id tok_key key bucket range c o s s' h d =
    elim (Bool-cases (text_beq tok_key key)) [
      | inr g ↦ absurd (ground (arith, g))
      | inl g ↦ elim (Option-cases (resolve_bucket_id bucket s.db)) [
        | inl r ↦ absurd (ground (arith, g, r))
        | inr (b, r) ↦ elim (Bool-cases (same_id bucket_id b.id)) [
          | inr k ↦ absurd (ground (arith, g, r, k))
          | inl k ↦ elim (Option-cases (get_object_by_filename_in_bucket key b.id s.db)) [
            | inl l ↦ absurd (ground (arith, g, r, k, l))
            | inr (held, l) ↦
                let same : get_object_keyed_with_headers key range s ≡ c =
                  ground (arith, g, r, k, l) in
                (b, held, g, r, k, l, keyed-served key range s o (ap Served.served same ∙ d))
          ]
        ]
      ]
    ]

module _ (b64_decode : Bytes → Option Bytes) (sign : Text → Text) (now : ℕ) where
  -- A request without a session is only served an object if its key is valid and its token is
  -- accepted as that of an account for this very key and for the bucket of the request, and the
  -- bucket has an active object of the key. The object is the first active one of the key in any of
  -- the buckets.
  pub media_content_by_access-granted :
      (raw_key : Text) (bucket : Option Text) (access : Text) (range : Option Text) (c : Content)
      (o : ObjectRecord) (s s' : Store)
      → media_content_by_access b64_decode sign now raw_key bucket access range s ≡ (served c, s')
      → Served.served c ≡ some o
      → (key : Text) × (b : BucketRecord) × (account_id : ℤ) × (bucket_id : ℤ) × (tok_key : Text)
        × (exp : ℤ) × (held : ObjectRecord) × (normalize_object_key raw_key ≡ ok key)
        × (verify_access_token b64_decode sign now access
            ≡ inr (personal_grant account_id bucket_id tok_key exp))
        × (text_beq tok_key key ≡ true)
        × (resolve_bucket_id bucket s.db ≡ some b)
        × (same_id bucket_id b.id ≡ true)
        × (get_object_by_filename_in_bucket key b.id s.db ≡ some held)
        × (get_object_by_filename key s.db ≡ some o)
  unfolding media_content_by_access
  media_content_by_access-granted raw_key bucket access range c o s s' h d =
      elim (Result-cases (normalize_object_key raw_key)) [
        | inr (x, f) ↦ absurd (ground (arith, f))
        | inl (key, f) ↦ elim (Checked-cases (verify_access_token b64_decode sign now access)) [
          | inl (x, e) ↦ absurd (ground (arith, f, e))
          | inr (inl (share_id, bucket_id, exp, e)) ↦ absurd (ground (arith, f, e))
          | inr (inr (account_id, bucket_id, tok_key, exp, e)) ↦
              let (b, held, g, r, k, l, m) =
                opened_by-granted bucket_id tok_key key bucket range c o s s' (rw (f, e) at h) d in
              (key, b, account_id, bucket_id, tok_key, exp, held, f, e, g, r, k, l, m)
        ]
      ]
