-- ===== src/Server/Http.antt =====
-- The responses of axum's handlers, and handlers as actions: a handler ends early with the response
-- of an error (`return …`), or goes on with a value. The state that it has changed by then stays
-- changed. Of a response that refuses, the status is kept.
pub mod Kept
use my_s.Common.{
  Bool, Option, String, Text, codes, contains, if◌then◌else◌, inl, inr, none, refl, some, ◌≡◌, ◌⊎◌,
}
use my_s.Database.{Db, Error, Exec, Result, err, ok}
use my_s.Server.Blobs.{Store}

pub data StatusCode : Type 0 where
  http_ok created accepted no_content : StatusCode
  bad_request unauthorized forbidden not_found conflict gone internal_server_error : StatusCode

pub data Served {ℓ} (A : Type ℓ) : Type ℓ where
  served : A → Served A
  refused : StatusCode → Served A

pub Served-cases :
    {A : Type 0} (r : Served A)
    → ((status : StatusCode) × (r ≡ refused status)) ⊎ ((a : A) × (r ≡ served a))
Served-cases (served a) = inr (a, refl)
Served-cases (refused status) = inl (status, refl)

abbrev pub Handler : Type 0 → Type 0 → Type 0
Handler S A = S → Served A × S

module _ {A : Type 0} where
  abbrev found_or : Option A → StatusCode → Served A
  found_or none status = refused status
  found_or (some a) status = served a

  abbrev tried : (Error → StatusCode) → Result A → Served A
  tried status (ok a) = served a
  tried status (err e) = refused (status e)

module _ {S A : Type 0} where
  -- `(status, Json(body)).into_response()`
  abbrev pub reply : StatusCode → A → Handler S (StatusCode × A)
  reply status body s = (served (status, body), s)

  abbrev pub refuse : StatusCode → Handler S A
  refuse status s = (refused status, s)

  abbrev pub read : (S → A) → Handler S A
  read f s = (served (f s), s)

  -- `match … { Ok(Some(a)) => a, Ok(None) => return status, … }`
  abbrev pub lookup : (S → Option A) → StatusCode → Handler S A
  lookup f status s = (found_or (f s) status, s)

  -- `match … { Ok(a) => a, Err(err) => return status(err) }`
  abbrev pub attempt : (Error → StatusCode) → Exec S A → Handler S A
  attempt status m s = let (r, s') = m s in (tried status r, s')

module _ {S : Type 0} where
  abbrev pub change : (S → S) → Handler S (Unit {0})
  change f s = (served tt, f s)

  abbrev pub demand : (S → Bool) → StatusCode → Handler S (Unit {0})
  demand test status s = if test s then (served tt, s) else (refused status, s)

  -- A status without a body.
  abbrev pub answer_with : StatusCode → Handler S (StatusCode × Unit {0})
  answer_with status = reply status tt

module _ {S A B : Type 0} where
  abbrev resume : Served A → (A → Handler S B) → Handler S B
  resume (served a) f s = f a s
  resume (refused status) f s = (refused status, s)

  infixl 10 ◌>>=◌ ◌>>◌
  abbrev pub ◌>>=◌ : Handler S A → (A → Handler S B) → Handler S B
  ◌>>=◌ m f s = let (r, s') = m s in resume r f s'

  abbrev pub ◌>>◌ : Handler S A → Handler S B → Handler S B
  m >> n = m >>= λ _. n

-- A handler of the database, where the stored files stay.
abbrev pub on_db : {A : Type 0} → Handler Db A → Handler Store A
on_db h s = let (r, db') = h s.db in (r, record { db = db'; files = s.files })

-- `err.to_string()`, up to the first value that a message names.
unfoldable pub message : Error → Text
message Error.unique_violation =
    codes "error returned from database: (code: 2067) UNIQUE constraint failed"
message Error.foreign_key_violation =
    codes "error returned from database: (code: 787) FOREIGN KEY constraint failed"
message Error.object_not_found = codes "object not found"
message Error.bucket_not_found = codes "bucket not found"
message Error.account_not_found = codes "account not found"
message Error.role_not_found = codes "role not found"
message Error.peer_not_found = codes "peer not found or inactive"
message Error.assignment_not_found = codes "node assignment not found"
message Error.share_not_found = codes "share missing after insert"
message Error.folder_not_found = codes "folder not found or empty"
message Error.not_in_recycle_bin = codes "object is not in recycle bin"
message Error.key_already_exists =
    codes "an active object with the same key already exists in this bucket"
message Error.target_key_exists = codes "target key already exists"
message Error.folder_empty = codes "folder is empty or does not exist"
message Error.owner_role_undeletable = codes "cannot delete Owner role"
message Error.storage_undeletable = codes "cannot delete default storage bucket"
message Error.storage_unrenamable = codes "cannot rename default storage bucket"
message Error.storage_reserved = codes "cannot use reserved bucket name storage"
message Error.bucket_not_empty = codes "bucket still contains objects"
message Error.owner_disabled = codes "cannot transfer ownership to a disabled account"
message Error.retention_negative = codes "retention value must be >= 0"
message Error.bytes_not_positive = codes "allocated_bytes must be positive"
message Error.no_fields = codes "no fields to update"
message Error.local_node_unremovable = codes "cannot remove the local node"
message Error.last_node_unremovable = codes "cannot remove the last node"
message Error.quota_exceeded = codes "quota exceeded on node"
message Error.recipients_required = codes "specific_users requires at least one account_id"
message Error.no_unique_token = codes "failed to generate unique share token"
message Error.revoke_not_allowed = codes "not allowed to revoke this share"
message Error.check_violation =
    codes "error returned from database: (code: 275) CHECK constraint failed"
message Error.etag_mismatch = codes "etag mismatch"
message Error.open_failed = codes "open"
message Error.archive_empty = codes "folder is empty"
message Error.stream_failed = codes "error reading a body from connection"
message Error.key_empty = codes "object key must not be empty"
message Error.key_invalid_segment = codes "object key contains invalid path segment"
message Error.prefix_empty = codes "folder prefix must not be empty"
message Error.prefix_invalid_segment = codes "folder prefix contains invalid path segment"

-- `msg.contains(part)`
abbrev pub says : String → Error → Bool
says part e = contains (codes part) (message e)

abbrev pub internal : Error → StatusCode
internal e = internal_server_error
