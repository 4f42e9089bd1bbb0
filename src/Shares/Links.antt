-- ===== src/Shares/Links.antt =====
-- src/db/shares.rs: creating, finding and revoking share links.
pub mod Created
use my_s.Common.{
  Bool, List, Option, Text, [], any, codes, false, first, if◌then◌else◌, leb, length, ltb, map,
  nat_beq, compared_ids, none, not, opt_beq, order_by, select, some, suc, text_beq, compared_texts,
  true, update, zero, ℕ, ◌&&◌, ◌++◌, ◌+◌, ◌||◌, ◌∷◌,
}
use my_s.Database.{
  Db, Error, Exec, Result, bail, context, err, folder_not_found, foreign_key_violation, gets, guard,
  no_unique_token, object_not_found, ok, pure, recipients_required, revoke_not_allowed,
  share_not_found, unique_violation, ◌>>=◌, ◌>>◌,
}
use my_s.Models.{
  ShareAccessMode, ShareLinkRecord, ShareLinkUser, ShareTargetKind, file, folder, is_file,
  is_specific_users,
}
use my_s.Objects.Folders.{under_prefix}
use my_s.Objects.Rows.{get_object_by_filename_in_bucket}
use my_s.Rbac.Accounts.{account_exists}
use my_s.Rbac.Permissions.{has_bucket_id}

abbrev pub share_charset : Text
share_charset = codes "123456789ABCDEFGHJKLMNPQRSTUVWXYZabcdefghijkmnopqrstuvwxyz"

abbrev pub has_share_id : ℕ → ShareLinkRecord → Bool
has_share_id id s = nat_beq s.id id

unfoldable pub get_share_by_id : ℕ → Db → Option ShareLinkRecord
get_share_by_id id db = first (has_share_id id) db.shares

abbrev pub has_share_token : Text → ShareLinkRecord → Bool
has_share_token token s = text_beq s.token token

unfoldable pub get_share_by_token : Text → Db → Option ShareLinkRecord
get_share_by_token token db = first (has_share_token token) db.shares

abbrev pub has_short_code : Text → ShareLinkRecord → Bool
has_short_code code s = opt_beq s.short_code code

unfoldable pub get_share_by_short_code : Text → Db → Option ShareLinkRecord
get_share_by_short_code code db = first (has_short_code code) db.shares

unfoldable pub prefix_has_objects : ℕ → Text → Db → Bool
prefix_has_objects bucket_id prefix db = any (under_prefix bucket_id prefix) db.objects

-- The columns that a request gives.
pub record ShareRequest : Type 0 where
  pub bucket_id : ℕ
  pub target_key : Text
  pub target_kind : ShareTargetKind
  pub access_mode : ShareAccessMode
  pub expires_at : Option ℕ
  pub created_by_account_id : ℕ

abbrev pub share_row : ℕ → ℕ → Text → Option Text → ShareRequest → ShareLinkRecord
share_row now id token short_code r = record {
  id = id;
  token = token;
  short_code = short_code;
  bucket_id = r.bucket_id;
  target_key = r.target_key;
  target_kind = r.target_kind;
  access_mode = r.access_mode;
  expires_at = r.expires_at;
  created_by_account_id = r.created_by_account_id;
  created_at = now;
  revoked_at = none;
}

abbrev pub code_taken : Option Text → List ShareLinkRecord → Bool
code_taken none shares = false
code_taken (some code) shares = any (has_short_code code) shares

-- INSERT INTO share_link … RETURNING id
unfoldable pub insert_share : ℕ → Text → Option Text → ShareRequest → Exec Db ℕ
insert_share now token short_code r db =
    if any (has_share_token token) db.shares || code_taken short_code db.shares
    then (err unique_violation, db)
    else if not (
        any (has_bucket_id r.bucket_id) db.buckets
        && account_exists db (some r.created_by_account_id))
    then (err foreign_key_violation, db)
    else (
      ok db.next_share,
      record db {
        shares = db.shares ++ share_row now db.next_share token short_code r ∷ [];
        next_share = db.next_share + 1;
      },
    )

abbrev is_recipient : ℕ → ℕ → ShareLinkUser → Bool
is_recipient share_id account_id u = nat_beq u.share_id share_id && nat_beq u.account_id account_id

-- INSERT INTO share_link_user
unfoldable pub insert_recipient : ℕ → ℕ → Exec Db (Unit {0})
insert_recipient share_id account_id db =
    if any (is_recipient share_id account_id) db.share_users
    then (err unique_violation, db)
    else if not (account_exists db (some account_id))
    then (err foreign_key_violation, db)
    else (
      ok tt,
      record db {
        share_users =
            db.share_users ++ record { share_id = share_id; account_id = account_id } ∷ [];
      },
    )

unfoldable pub insert_recipients : ℕ → List ℕ → Exec Db (Unit {0})
insert_recipients share_id [] = pure tt
insert_recipients share_id (a ∷ as') = insert_recipient share_id a >> insert_recipients share_id as'

abbrev pub target_exists : ShareRequest → Db → Bool
target_exists r db =
    if is_file r.target_kind
    then elim (get_object_by_filename_in_bucket r.target_key r.bucket_id db) [
      | none ↦ false
      | some _ ↦ true
    ]
    else prefix_has_objects r.bucket_id r.target_key db

abbrev no_target : ShareTargetKind → Error
no_target file = object_not_found
no_target folder = folder_not_found

-- What follows a successful INSERT. The recipients are not in one transaction with it.
unfoldable pub finish_share : ShareRequest → List ℕ → ℕ → Exec Db ShareLinkRecord
finish_share r account_ids id =
    (if is_specific_users r.access_mode then insert_recipients id account_ids else pure tt)
    >> (λ db. context (get_share_by_id id db) share_not_found db)

-- `random_share_code` draws from a random source: `draw n` is the token and the short code of the
-- n-th attempt.
module _ (draw : ℕ → Text × Text) where
  abbrev pub drawn_code : Bool → ℕ → Option Text
  drawn_code true n = some ((draw n).1)
  drawn_code false n = none

  abbrev pub retry :
      Result ℕ → Exec Db ShareLinkRecord → (ℕ → Exec Db ShareLinkRecord) → Exec Db ShareLinkRecord
  retry (ok id) again next = next id
  retry (err unique_violation) again next = again
  retry (err e) again next = bail e

  -- The loop, with the attempts that are left and those made.
  unfoldable pub attempt_share : ℕ → ℕ → ℕ → ShareRequest → List ℕ → Bool → Exec Db ShareLinkRecord
  attempt_share zero n now r account_ids shorten db = (err no_unique_token, db)
  attempt_share (suc left) n now r account_ids shorten db =
      let (result, db') = insert_share now ((draw n).0) (drawn_code shorten n) r db in
      retry result (attempt_share left (n + 1) now r account_ids shorten)
        (finish_share r account_ids) db'

  unfoldable pub create_share : ℕ → ShareRequest → List ℕ → Bool → Exec Db ShareLinkRecord
  create_share now r account_ids shorten = do
    found ← gets (target_exists r)
    guard found (no_target r.target_kind)
    guard (not (is_specific_users r.access_mode && nat_beq (length account_ids) 0))
        recipients_required
    attempt_share 8 0 now r account_ids shorten

unfoldable pub list_share_recipients : ℕ → Db → List ℕ
list_share_recipients share_id db = order_by leb (
    map (λ (u : ShareLinkUser). u.account_id)
      (select (λ (u : ShareLinkUser). nat_beq u.share_id share_id) db.share_users))

unfoldable pub share_allows_account : ℕ → ℕ → Db → Bool
share_allows_account share_id account_id db = any (is_recipient share_id account_id) db.share_users

abbrev pub is_revoked : ShareLinkRecord → Bool
is_revoked s = elim s.revoked_at [ none ↦ false | some _ ↦ true ]

pub data ShareDenyReason : Type 0 where
  revoked expired : ShareDenyReason

abbrev past : Option ℕ → ℕ → Bool
past none now = false
past (some t) now = ltb t now

-- Why a share is not usable, if it is not.
unfoldable pub share_is_usable : ShareLinkRecord → ℕ → Option ShareDenyReason
share_is_usable s now =
    if is_revoked s then some revoked else if past s.expires_at now then some expired else none

unfoldable pub revoke_share : ℕ → ℕ → ℕ → Bool → Exec Db Bool
revoke_share now share_id actor_account_id is_owner db = elim (get_share_by_id share_id db) [
  | none ↦ (ok false, db)
  | some s ↦
      if is_revoked s
      then (ok true, db)
      else if not is_owner && not (nat_beq s.created_by_account_id actor_account_id)
      then (err revoke_not_allowed, db)
      else (
        ok true,
        record db {
          shares =
              update (λ c. has_share_id share_id c && not (is_revoked c))
                (λ c. record c { revoked_at = some now }) db.shares;
        },
      )
]
