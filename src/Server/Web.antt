-- ===== src/Server/Web.antt =====
-- src/server/web_routes.rs: the handlers of the browser interface, but for downloads (Content) and
-- archives (Archives). `auth` is the id of the session's account.
pub mod Media
use my_s.Common.{
  Bool, List, Option, Text, codes, false, if◌then◌else◌, is_empty, leb, ltb, min, none, pos, negsuc,
  some, true, ℕ, ℤ, ◌++◌, ◌||◌,
}
use my_s.Database.{Db, Error}
use my_s.Keys.{normalize_folder_prefix, normalize_object_key}
use my_s.Models.{
  ClusterPeer, CrudAction, ObjectRecord, create_action, delete_action, read_action, update_action,
}
use my_s.Objects.Etags.{list_objects_in_bucket, stats}
use my_s.Objects.Folders.{rename_prefix, soft_delete_prefix}
use my_s.Objects.Listing.{list_objects_with_prefix}
use my_s.Objects.Paging.{PrefixListResult}
use my_s.Objects.Rows.{get_object_by_filename_in_bucket}
use my_s.Replication.Nodes.{list_active_peers}
use my_s.Server.Auth.{require_owner}
use my_s.Server.Blobs.{PutResponse, Store, EngineOutcome, put_object_keyed_in_bucket}
use my_s.Server.Content.{require_bucket_perm, resolve_bucket_id}
use my_s.Server.Http.{
  Handler, StatusCode, attempt, bad_request, conflict, demand, forbidden, http_ok, internal, lookup,
  not_found, on_db, read, reply, says, ◌>>=◌, ◌>>◌,
}
use my_s.Server.S3.{delete_object_keyed_in_bucket}
use my_s.Server.Sharing.{or_bad_request}

pub record StatsResponse : Type 0 where
  pub bytes_stored : ℕ
  pub object_count : ℕ
  pub outbox_pending : ℕ
  pub node_id : Text

-- The snapshot of the tunnel's status that the answer has besides is left out.
unfoldable pub get_stats : Text → Handler Db (StatusCode × StatsResponse)
get_stats node_id db =
    let (bytes, count, pending) = stats db in
    reply http_ok
      (record {
        bytes_stored = bytes;
        object_count = count;
        outbox_pending = pending;
        node_id = node_id;
      })
      db

unfoldable pub get_bucket_objects : ℕ → Option Text → Handler Db (StatusCode × List ObjectRecord)
get_bucket_objects auth bucket = do
  b ← lookup (resolve_bucket_id bucket) not_found
  demand (require_bucket_perm auth b.id read_action) forbidden
  λ db. reply http_ok (list_objects_in_bucket b.id db) db

abbrev pub default_list_limit : ℤ
default_list_limit = pos 50

-- `clamp(1, 500)`
abbrev pub clamp_limit : ℤ → ℤ
clamp_limit (pos n) = pos (if ltb n 1 then 1 else min n 500)
clamp_limit (negsuc n) = pos 1

abbrev limit_or_default : Option ℤ → ℤ
limit_or_default none = default_list_limit
limit_or_default (some limit) = limit

abbrev pub not_negative : ℤ → ℤ
not_negative (pos n) = pos n
not_negative (negsuc n) = pos 0

pub record ListQuery : Type 0 where
  pub prefix : Text
  pub delimiter : Text
  pub search : Option Text
  pub bucket : Option Text
  pub offset : ℤ
  pub limit : Option ℤ

unfoldable pub objects_list :
    (Text → Text) → ℕ → ListQuery → Handler Db (StatusCode × PrefixListResult)
objects_list to_lowercase auth q = do
  b ← lookup (resolve_bucket_id q.bucket) not_found
  demand (require_bucket_perm auth b.id read_action) forbidden
  λ db.
      reply http_ok
        (list_objects_with_prefix to_lowercase q.prefix q.delimiter q.search (some b.id)
          (not_negative q.offset) (clamp_limit (limit_or_default q.limit)) db)
        db

-- The number of the objects that were moved to the recycle bin.
unfoldable pub delete_folder : ℕ → ℕ → Option Text → Text → Handler Db (StatusCode × ℕ)
delete_folder now auth bucket raw_prefix = do
  prefix ← or_bad_request (normalize_folder_prefix raw_prefix)
  b ← lookup (resolve_bucket_id bucket) not_found
  demand (require_bucket_perm auth b.id delete_action) forbidden
  affected ← attempt internal (soft_delete_prefix now b.id prefix)
  reply http_ok affected

abbrev pub unrenamed : Error → StatusCode
unrenamed e =
    if says "already exists" e || says "empty or does not" e then conflict else bad_request

unfoldable pub rename_folder : ℕ → ℕ → Option Text → Text → Text → Handler Db (StatusCode × ℕ)
rename_folder now auth bucket raw_from raw_to = do
  from_prefix ← or_bad_request (normalize_folder_prefix raw_from)
  to_prefix ← or_bad_request (normalize_folder_prefix raw_to)
  b ← lookup (resolve_bucket_id bucket) not_found
  demand (require_bucket_perm auth b.id update_action) forbidden
  affected ← attempt unrenamed (rename_prefix now b.id from_prefix to_prefix)
  reply http_ok affected

-- To replace an object is an update, to put a new one a creation.
abbrev pub put_action : Option ObjectRecord → CrudAction
put_action none = create_action
put_action (some _) = update_action

unfoldable pub web_put_object :
    ℕ → Text → ℕ → Text → Option Text → EngineOutcome → Handler Store PutResponse
web_put_object now node_id auth raw_key bucket stored = do
  key ← or_bad_request (normalize_object_key raw_key)
  b ← lookup (λ (s : Store). resolve_bucket_id bucket s.db) not_found
  existing ← read (λ (s : Store). get_object_by_filename_in_bucket key b.id s.db)
  demand (λ (s : Store). require_bucket_perm auth b.id (put_action existing) s.db) forbidden
  λ s.
      let (r, s') = put_object_keyed_in_bucket now key stored (some b.id) node_id s in
      read (λ _. r) s'

unfoldable pub web_delete_object : ℕ → ℕ → Text → Option Text → Handler Db (StatusCode × Unit {0})
web_delete_object now auth raw_key bucket = do
  key ← or_bad_request (normalize_object_key raw_key)
  b ← lookup (resolve_bucket_id bucket) not_found
  demand (require_bucket_perm auth b.id delete_action) forbidden
  delete_object_keyed_in_bucket now key (some b.id)

unfoldable pub get_peers : ℕ → Handler Db (StatusCode × List ClusterPeer)
get_peers auth = do require_owner auth; λ db. reply http_ok (list_active_peers db) db

abbrev endpoint_or : Text → Option Text → Text
endpoint_or default none = default
endpoint_or default (some endpoint) = endpoint

-- src/network/wireguard.rs
unfoldable pub peer_config_snippet : Text → Text → Text → Text
peer_config_snippet node_id endpoint public_key_placeholder =
    codes "[Interface]\n# Peer for "
    ++ node_id
    ++ codes "\nAddress = 10.0.0.x/24\n\n[Peer]\nPublicKey = "
    ++ public_key_placeholder
    ++ codes "\nAllowedIPs = 10.0.0.0/24\nEndpoint = "
    ++ endpoint
    ++ codes "\nPersistentKeepalive = 25\n"

-- The snippet of the answer; its picture is drawn by a library.
unfoldable pub wg_qr : Text → Text → ℕ → Option Text → Handler Db (StatusCode × Text)
wg_qr node_id grpc_bind_addr auth endpoint = do
  require_owner auth
  reply http_ok (
      peer_config_snippet node_id (endpoint_or grpc_bind_addr endpoint)
        (codes "REPLACE_WITH_NODE_PUBLIC_KEY"))
