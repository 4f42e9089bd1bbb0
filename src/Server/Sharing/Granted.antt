-- ===== src/Server/Sharing/Granted.antt =====
-- src/server/share_routes.rs: who may see what a share link is for.
use my_s.Common.{
  Bool, Bool-cases, Bytes, Option, Option-cases, Text, ap, arith, false, if◌then◌else◌, inl, inr,
  none, refl, some, true, ℕ, ◌||◌, ◌∙◌, ◌≡◌,
}
use my_s.Database.{Db, Result-cases, ok}
use my_s.Keys.{normalize_object_key}
use my_s.Models.{
  AccountRecord, ObjectRecord, ShareAccessMode, ShareLinkRecord, bucket_readers, is_public,
  is_specific_users, public, read_action, specific_users,
}
use my_s.Objects.Rows.{get_object_by_filename, get_object_by_filename_in_bucket}
use my_s.Rbac.Permissions.{check_perm}
use my_s.Server.Blobs.{Store}
use my_s.Server.Content.{Content, get_object_keyed_with_headers}
use my_s.Server.Content.Served
use my_s.Server.Content.Served.{keyed-served}
use my_s.Server.Http.{Served-cases, served}
use my_s.Server.Sharing.Access.{
  access_token_grants_share, authorize_mode, authorize_share, content_for_share,
  share_content_by_token,
}
use my_s.Shares.Links.{get_share_by_token, share_allows_account, share_is_usable}
use my_s.Shares.Scope.{key_in_share_scope, usable}

-- What an account may see: with `specific_users` it is a recipient, and else it may read the bucket.
abbrev pub account_may : ShareLinkRecord → Option AccountRecord → Db → Bool
account_may share none db = false
account_may share (some a) db =
    if is_specific_users share.access_mode
    then share_allows_account share.id a.id db
    else check_perm a.id share.bucket_id read_action db

module _ (b64_decode : Bytes → Option Bytes) (sign : Text → Text) (now : ℕ) where
  abbrev pub may_see : ShareLinkRecord → Option AccountRecord → Option Text → Db → Bool
  may_see share auth access db =
      is_public share.access_mode
      || (access_token_grants_share b64_decode sign now share access || account_may share auth db)

  mode-may_see :
      (mode : ShareAccessMode) (share : ShareLinkRecord) (auth : Option AccountRecord)
      (access : Option Text) (db : Db)
      → share.access_mode ≡ mode
      → authorize_mode b64_decode sign now mode share auth access db ≡ served tt
      → may_see share auth access db ≡ true
  mode-may_see public share auth access db e h = rw e refl
  mode-may_see bucket_readers share none access db e h = rw e (ground arith)
  mode-may_see bucket_readers share (some a) access db e h = rw e (ground arith)
  mode-may_see specific_users share none access db e h = rw e (ground arith)
  mode-may_see specific_users share (some a) access db e h = rw e (ground arith)

  authorized-may_see :
      (share : ShareLinkRecord) (auth : Option AccountRecord) (access : Option Text) (db : Db)
      → authorize_share b64_decode sign now share auth access db ≡ served tt
      → (usable now share ≡ true) × (may_see share auth access db ≡ true)
  unfolding authorize_share
  authorized-may_see share auth access db h = elim (Option-cases (share_is_usable share now)) [
    | inr (r, e) ↦ absurd (ground (arith, e))
    | inl e ↦ (
      ground (arith, e),
      mode-may_see share.access_mode share auth access db refl (ground (arith, e)),
    )
  ]

  content_for_share-granted :
      (share : ShareLinkRecord) (auth : Option AccountRecord) (raw_key : Text)
      (access range : Option Text) (c : Content) (o : ObjectRecord) (s s' : Store)
      → content_for_share b64_decode sign now share auth raw_key access range s ≡ (served c, s')
      → Served.served c ≡ some o
      → (key : Text) × (held : ObjectRecord) × (normalize_object_key raw_key ≡ ok key)
        × (usable now share ≡ true)
        × (may_see share auth access s.db ≡ true)
        × (key_in_share_scope share key ≡ true)
        × (get_object_by_filename_in_bucket key share.bucket_id s.db ≡ some held)
        × (get_object_by_filename key s.db ≡ some o)
  unfolding content_for_share
  content_for_share-granted share auth raw_key access range c o s s' h d =
      elim (Served-cases (authorize_share b64_decode sign now share auth access s.db)) [
        | inl (status, e) ↦ absurd (ground (arith, e))
        | inr (u, e) ↦ elim (Result-cases (normalize_object_key raw_key)) [
          | inr (x, f) ↦ absurd (ground (arith, e, f))
          | inl (key, f) ↦ elim (Bool-cases (key_in_share_scope share key)) [
            | inr g ↦ absurd (ground (arith, e, f, g))
            | inl g ↦
                elim (Option-cases (get_object_by_filename_in_bucket key share.bucket_id s.db)) [
                  | inl k ↦ absurd (ground (arith, e, f, g, k))
                  | inr (held, k) ↦
                      let (v, m) = authorized-may_see share auth access s.db e in
                      let same : get_object_keyed_with_headers key range s ≡ c =
                        ground (arith, e, f, g, k) in
                      (
                        key,
                        held,
                        f,
                        v,
                        m,
                        g,
                        k,
                        keyed-served key range s o (ap Served.served same ∙ d),
                      )
                ]
          ]
        ]
      ]

  -- What a request with the token of a share is given is an object only if the share of that token is
  -- usable; if it is public, or the access token grants it, or the account of the session is a
  -- recipient of it or, without a list of recipients, may read its bucket; and if the key is valid, in
  -- the scope of the share, and that of an active object in its bucket. The object is the first active
  -- one of the key in any of the buckets.
  pub share_content_by_token-granted :
      (token : Text) (auth : Option AccountRecord) (raw_key : Text) (access range : Option Text)
      (c : Content) (o : ObjectRecord) (s s' : Store)
      → share_content_by_token b64_decode sign now token auth raw_key access range s
        ≡ (served c, s')
      → Served.served c ≡ some o
      → (share : ShareLinkRecord) × (key : Text) × (held : ObjectRecord) × (get_share_by_token token
            s.db
          ≡ some share)
        × (normalize_object_key raw_key ≡ ok key)
        × (usable now share ≡ true)
        × (may_see share auth access s.db ≡ true)
        × (key_in_share_scope share key ≡ true)
        × (get_object_by_filename_in_bucket key share.bucket_id s.db ≡ some held)
        × (get_object_by_filename key s.db ≡ some o)
  unfolding share_content_by_token
  share_content_by_token-granted token auth raw_key access range c o s s' h d =
      elim (Option-cases (get_share_by_token token s.db)) [
        | inl e ↦ absurd (ground (arith, e))
        | inr (share, e) ↦
            let (key, held, f, v, m, g, k, l) =
              content_for_share-granted share auth raw_key access range c o s s' (ground (arith, e))
                d in
            (share, key, held, e, f, v, m, g, k, l)
      ]
