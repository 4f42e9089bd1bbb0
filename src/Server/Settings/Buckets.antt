-- ===== src/Server/Settings/Buckets.antt =====
-- src/server/settings_routes.rs: buckets. `auth` is the id of the session's account.
pub mod Dropped
use my_s.Common.{
  Bool, List, Option, Text, [], all, false, if◌then◌else◌, is_empty, leb, length, ltb, nat_beq,
  none, not, pos, some, text_beq, trim, true, ℕ, ◌&&◌, ◌||◌, ◌∷◌,
}
use my_s.Database.{Db, Error, Exec, Result, err, ok}
use my_s.Models.{BucketRecord, EtagType, read_action, soft}
use my_s.Rbac.Buckets.{
  create_bucket, delete_bucket, list_buckets, list_object_ids_in_bucket, rename_bucket,
  set_bucket_owner, storage,
}
use my_s.Rbac.Permissions.{
  account_owns_bucket, can_edit_bucket_replication, check_perm, get_bucket_by_id,
}
use my_s.Replication.Nodes.{assign_bucket_node, default_node_allocated_bytes}
use my_s.Server.Auth.{require_owner}
use my_s.Server.Blobs.{Store}
use my_s.Server.Http.{
  Handler, StatusCode, answer_with, attempt, bad_request, conflict, created, demand, forbidden,
  http_ok, internal, internal_server_error, lookup, no_content, not_found, on_db, read, reply, says,
  ◌>>=◌, ◌>>◌,
}
use my_s.Server.Settings.Purge.{hard_purge_object}

pub record BucketListItem : Type 0 where
  pub id : ℕ
  pub name : Text
  pub created_utc : ℕ
  pub owner_account_id : Option ℕ
  pub replicate_to_all : Bool
  pub can_edit_replication : Bool
  pub etag_type : EtagType
  pub etag_rehash_status : Option Text
  pub etag_rehash_processed : ℕ
  pub etag_rehash_total : ℕ
  pub etag_rehash_error : Option Text

abbrev pub bucket_item : ℕ → Db → BucketRecord → BucketListItem
bucket_item auth db b = record {
  id = b.id;
  name = b.name;
  created_utc = b.created_utc;
  owner_account_id = b.owner_account_id;
  replicate_to_all = b.replicate_to_all;
  can_edit_replication = can_edit_bucket_replication auth b.id db;
  etag_type = b.etag_type;
  etag_rehash_status = b.etag_rehash_status;
  etag_rehash_processed = b.etag_rehash_processed;
  etag_rehash_total = b.etag_rehash_total;
  etag_rehash_error = b.etag_rehash_error;
}

-- The loop over the buckets: those that the account may read.
unfoldable pub readable_items : ℕ → List BucketRecord → Db → List BucketListItem
readable_items auth [] db = []
readable_items auth (b ∷ buckets) db =
    let rest = readable_items auth buckets db in
    if check_perm auth b.id read_action db then bucket_item auth db b ∷ rest else rest

unfoldable pub get_buckets : ℕ → Handler Db (StatusCode × List BucketListItem)
get_buckets auth db = reply http_ok (readable_items auth (list_buckets db) db) db

abbrev pub is_ascii_alphanumeric : ℕ → Bool
is_ascii_alphanumeric c =
    (leb 0x30 c && leb c 0x39) || (leb 0x41 c && leb c 0x5a) || (leb 0x61 c && leb c 0x7a)

-- Letters, digits, `-`, `_` and `.`
abbrev pub is_name_char : ℕ → Bool
is_name_char c = is_ascii_alphanumeric c || nat_beq c 0x2d || nat_beq c 0x5f || nat_beq c 0x2e

-- The limit is on bytes, but a name with longer characters is refused as well.
unfoldable pub validate_bucket_name : Text → Option Text
validate_bucket_name name =
    if is_empty (trim name) || ltb 128 (length (trim name))
    then none
    else if not (all is_name_char (trim name))
    then none
    else some (trim name)

abbrev name_taken : Error → StatusCode
name_taken e = if says "UNIQUE" e then conflict else internal_server_error

-- The bucket stays if its node cannot be assigned.
unfoldable pub post_bucket : ℕ → Text → EtagType → ℕ → Text → Handler Db (StatusCode × BucketRecord)
post_bucket now node_id default_etag_type auth name = do
  require_owner auth
  valid ← lookup (λ _. validate_bucket_name name) bad_request
  b ← attempt name_taken (create_bucket now valid auth default_etag_type)
  attempt internal (assign_bucket_node b.id node_id (pos default_node_allocated_bytes) soft)
  reply created b

abbrev is_given : {A : Type 0} → Option A → Bool
is_given none = false
is_given (some _) = true

abbrev unrenamed : Error → StatusCode
unrenamed e =
    if says "UNIQUE" e || (says "cannot rename" e || says "reserved" e)
    then conflict
    else if says "not found" e
    then not_found
    else internal_server_error

abbrev rename_to : ℕ → Option Text → BucketRecord → Handler Db BucketRecord
rename_to id none bucket = read (λ _. bucket)
rename_to id (some raw_name) bucket = do
  name ← lookup (λ _. validate_bucket_name raw_name) bad_request
  attempt unrenamed (rename_bucket id name)

abbrev untransferred : Error → StatusCode
untransferred e =
    if says "account not found" e
    then not_found
    else if says "disabled" e
    then conflict
    else if says "bucket not found" e
    then not_found
    else internal_server_error

abbrev transfer_to : ℕ → Option ℕ → BucketRecord → Handler Db BucketRecord
transfer_to id none bucket = read (λ _. bucket)
transfer_to id (some new_owner_id) bucket = attempt untransferred (set_bucket_owner id new_owner_id)

-- The new name stays if the transfer is refused.
unfoldable pub patch_bucket :
    ℕ → ℕ → Option Text → Option ℕ → Handler Db (StatusCode × BucketRecord)
patch_bucket auth id name owner_account_id = do
  demand (λ _. is_given name || is_given owner_account_id) bad_request
  demand (account_owns_bucket auth id) forbidden
  bucket ← lookup (get_bucket_by_id id) not_found
  renamed ← rename_to id name bucket
  transferred ← transfer_to id owner_account_id renamed
  reply http_ok transferred

abbrev pub is_storage : Option BucketRecord → Bool
is_storage none = false
is_storage (some b) = text_beq b.name storage

abbrev and_then : Result (Unit {0}) × Store → Exec Store (Unit {0}) → Result (Unit {0}) × Store
and_then (ok _, s) m = m s
and_then (err e, s) m = (err e, s)

-- The loop over the ids: the first that fails ends it.
unfoldable pub purge_objects : ℕ → Text → List ℕ → Exec Store (Unit {0})
purge_objects now node_id [] s = (ok tt, s)
purge_objects now node_id (id ∷ ids) s =
    and_then (hard_purge_object now node_id id s) (purge_objects now node_id ids)

abbrev pub undeleted_bucket : Error → StatusCode
undeleted_bucket e =
    if says "not found" e
    then not_found
    else if says "cannot delete" e || says "still contains" e
    then conflict
    else internal_server_error

unfoldable pub delete_bucket_by : ℕ → Text → ℕ → ℕ → Handler Store (StatusCode × Unit {0})
delete_bucket_by now node_id auth id = do
  bucket ← read (λ (s : Store). get_bucket_by_id id s.db)
  demand (λ (s : Store). account_owns_bucket auth id s.db) forbidden
  demand (λ _. not (is_storage bucket)) conflict
  object_ids ← read (λ (s : Store). list_object_ids_in_bucket id s.db)
  attempt internal (purge_objects now node_id object_ids)
  on_db (attempt undeleted_bucket (delete_bucket id))
  answer_with no_content
