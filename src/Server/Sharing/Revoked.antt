-- ===== src/Server/Sharing/Revoked.antt =====
-- src/server/share_routes.rs: a share link that was revoked.
use my_s.Common.{
  Bool, Bool-cases, Bytes, Option, Option-cases, Text, arith, inl, inr, refl, some, true, ◌||◌, ℕ,
  ◌≡◌,
}
use my_s.Database.{Db, Result-cases, ok}
use my_s.Models.{AccountRecord, ShareLinkRecord, read_action}
use my_s.Rbac.Permissions.{account_is_owner}
use my_s.Server.Blobs.{Store}
use my_s.Server.Content.{require_bucket_perm}
use my_s.Server.Http.{StatusCode, gone, refused, served}
use my_s.Server.Sharing.{revoke_share_by}
use my_s.Server.Sharing.Access.{authorize_share, content_for_share, list_for_share, meta_for_share}
use my_s.Shares.Links.{get_share_by_id, revoke_share, revoked, share_is_usable}
use my_s.Shares.Links.Created.{revoke_share-usable}

revoked_by :
    (now auth id : ℕ) (r : StatusCode × Unit {0}) (db db' : Db)
    → revoke_share_by now auth id db ≡ (served r, db')
    → (is_owner : Bool) × ((revoke_share now id auth is_owner db).0 ≡ ok true)
      × (db' ≡ (revoke_share now id auth is_owner db).1)
unfolding revoke_share_by
revoked_by now auth id r db db' h = elim (Option-cases (get_share_by_id id db)) [
  | inl e ↦ absurd (ground (arith, e))
  | inr (share, e) ↦
      let owner = account_is_owner auth db in
      elim (Bool-cases (owner || require_bucket_perm auth share.bucket_id read_action db)) [
        | inr f ↦ absurd (ground (arith, e, f))
        | inl f ↦ elim (Result-cases (revoke_share now id auth owner db).0) [
          | inr (x, g) ↦ absurd (ground (arith, e, f, g))
          | inl (done, g) ↦ elim (Bool-cases done) [
            | inr k ↦ absurd (ground (arith, e, f, g, k))
            | inl k ↦ (owner, ground (arith, g, k), ground (arith, e, f, g, k))
          ]
        ]
      ]
]

module _ (b64_decode : Bytes → Option Bytes) (sign to_lowercase : Text → Text) where
  revoked-gone :
      (later : ℕ) (share : ShareLinkRecord) (session : Option AccountRecord) (access : Option Text)
      (db : Db)
      → share_is_usable share later ≡ some revoked
      → authorize_share b64_decode sign later share session access db ≡ refused gone
  unfolding authorize_share
  revoked-gone later share session access db h = ground arith

  -- After an answered request to revoke a share, a request for the metadata, the listing or the
  -- contents of the share as it then is stored is answered 410 and changes nothing: at any time, with
  -- any session, and with any access token.
  pub revoke_share_by-gone :
      (now auth id : ℕ) (r : StatusCode × Unit {0}) (db db' : Db) (share : ShareLinkRecord)
      → revoke_share_by now auth id db ≡ (served r, db')
      → get_share_by_id id db' ≡ some share
      → (later : ℕ) (session : Option AccountRecord) (key : Text) (access range : Option Text)
        (s : Store)
      → (meta_for_share b64_decode sign later share session access s.db ≡ (refused gone, s.db))
        × (list_for_share b64_decode sign later to_lowercase share session key access s.db
            ≡ (refused gone, s.db))
        × (content_for_share b64_decode sign later share session key access range s
            ≡ (refused gone, s))
  unfolding meta_for_share list_for_share content_for_share
  revoke_share_by-gone now auth id r db db' share h k later session key access range s =
      let (owner, done, after) = revoked_by now auth id r db db' h in
      let dead =
        revoked-gone later share session access s.db
          (revoke_share-usable now id auth owner db share later done (rw (← after) k)) in
      (rw dead refl, rw dead refl, rw dead refl)
