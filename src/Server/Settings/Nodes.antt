-- ===== src/Server/Settings/Nodes.antt =====
-- src/server/settings_routes.rs: the nodes that a bucket is stored on, and its checksums. A size in
-- GiB is a floating-point number: handlers take what `gb_to_bytes` returns, none if it fails.
pub mod Endpoint
use my_s.Common.{
  Bool, List, Option, Text, [], any, codes, first, if◌then◌else◌, map, none, not, select, some,
  text_beq, trim, ℕ, ℤ, ◌++◌, ◌||◌,
}
use my_s.Database.{Db, Error}
use my_s.Models.{BucketNodeAssignment, ClusterPeer, EtagType, QuotaMode, soft}
use my_s.Rbac.Permissions.{can_edit_bucket_replication, get_bucket_by_id}
use my_s.Replication.Nodes.{
  assign_bucket_node, bucket_used_bytes, default_node_allocated_bytes,
  ensure_bucket_node_assignment, get_bucket_replication, has_peer_id, list_active_peers,
  list_bucket_node_assignments, remove_bucket_node, set_bucket_replication, update_bucket_node,
  upsert_peer,
}
use my_s.Server.Auth.{non_empty}
use my_s.Server.Http.{
  Handler, StatusCode, answer_with, attempt, bad_request, change, conflict, demand, forbidden,
  http_ok, internal_server_error, lookup, no_content, not_found, read, refuse, reply, says, ◌>>=◌,
  ◌>>◌,
}
use my_s.Server.Settings.Nodes.Endpoint.{parse_peer_endpoint}

-- The node's own id, and its gRPC address and port in their printed form.
pub record Config : Type 0 where
  pub node_id : Text
  pub grpc_bind_addr : Text
  pub grpc_port : Text

abbrev pub require_replication_editor : ℕ → ℕ → Handler Db (Unit {0})
require_replication_editor account_id bucket_id =
    demand (can_edit_bucket_replication account_id bucket_id) forbidden

pub record PeerDirItem : Type 0 where
  pub id : Text
  pub endpoint : Text

abbrev pub peer_item : ClusterPeer → PeerDirItem
peer_item p = record { id = p.id; endpoint = p.wireguard_endpoint }

pub record BucketReplicationView : Type 0 where
  pub replicate_to_all : Bool
  pub peer_ids : List Text
  pub peers : List PeerDirItem

abbrev pub missing : Error → StatusCode
missing e = if says "not found" e then not_found else internal_server_error

unfoldable pub get_replication : ℕ → ℕ → Handler Db (StatusCode × BucketReplicationView)
get_replication auth id = do
  require_replication_editor auth id
  (replicate_to_all, peer_ids) ← attempt missing (λ db. (get_bucket_replication id db, db))
  peers ← read (λ db. map peer_item (list_active_peers db))
  reply http_ok (record { replicate_to_all = replicate_to_all; peer_ids = peer_ids; peers = peers })

-- The local node is assigned again after the change; a failure to do so is ignored.
abbrev pub keep_local : Config → ℕ → Db → Db
keep_local config id db =
    (ensure_bucket_node_assignment id config.node_id default_node_allocated_bytes soft db).1

unfoldable pub put_bucket_replication :
    Config → ℕ → ℕ → Bool → List Text → Handler Db (StatusCode × Unit {0})
put_bucket_replication config auth id replicate_to_all peer_ids = do
  require_replication_editor auth id
  attempt missing (set_bucket_replication id replicate_to_all peer_ids)
  change (keep_local config id)
  answer_with no_content

pub record BucketNodeItem : Type 0 where
  pub id : Text
  pub endpoint : Text
  pub is_local : Bool
  pub allocated_bytes : ℕ
  pub quota_mode : QuotaMode
  pub used_bytes : ℕ

pub record BucketNodesView : Type 0 where
  pub nodes : List BucketNodeItem
  pub available : List PeerDirItem
  pub used_bytes : ℕ
  pub etag_type : EtagType
  pub etag_rehash_status : Option Text
  pub etag_rehash_processed : ℕ
  pub etag_rehash_total : ℕ
  pub etag_rehash_error : Option Text
  pub local_storage_path : Text

abbrev endpoint_of : Option ClusterPeer → Text
endpoint_of none = []
endpoint_of (some p) = p.wireguard_endpoint

abbrev node_item : Config → List ClusterPeer → ℕ → BucketNodeAssignment → BucketNodeItem
node_item config peers used_bytes a = record {
  id = a.peer_id;
  endpoint = endpoint_of (first (has_peer_id a.peer_id) peers);
  is_local = text_beq a.peer_id config.node_id;
  allocated_bytes = a.allocated_bytes;
  quota_mode = a.quota_mode;
  used_bytes = used_bytes;
}

abbrev unassigned : List BucketNodeAssignment → ClusterPeer → Bool
unassigned assignments p =
    not (any (λ (a : BucketNodeAssignment). text_beq a.peer_id p.id) assignments)

-- The local node is assigned first; the bucket is looked up last.
unfoldable pub list_bucket_nodes : Config → Text → ℕ → ℕ → Handler Db (StatusCode × BucketNodesView)
list_bucket_nodes config local_storage_path auth id = do
  require_replication_editor auth id
  change (keep_local config id)
  used_bytes ← read (bucket_used_bytes id)
  assignments ← read (list_bucket_node_assignments id)
  peers ← read list_active_peers
  bucket ← lookup (get_bucket_by_id id) not_found
  reply http_ok (record {
    nodes = map (node_item config peers used_bytes) assignments;
    available = map peer_item (select (unassigned assignments) peers);
    used_bytes = used_bytes;
    etag_type = bucket.etag_type;
    etag_rehash_status = bucket.etag_rehash_status;
    etag_rehash_processed = bucket.etag_rehash_processed;
    etag_rehash_total = bucket.etag_rehash_total;
    etag_rehash_error = bucket.etag_rehash_error;
    local_storage_path = local_storage_path;
  })

abbrev pub trimmed_given : Option Text → Option Text
trimmed_given none = none
trimmed_given (some s) = non_empty (trim s)

abbrev id_or : Option Text → Text → Text
id_or none suggested = suggested
id_or (some id) suggested = id

abbrev colon : ℕ
colon = 0x3a

-- The gRPC address of the node itself, as it is bound or on the loopback.
abbrev pub is_own_endpoint : Config → Text → Bool
is_own_endpoint config endpoint =
    text_beq endpoint config.grpc_bind_addr
    || text_beq endpoint (codes "127.0.0.1:" ++ config.grpc_port)
    || text_beq endpoint (codes "localhost:" ++ config.grpc_port)

-- The peer of the request: known by its endpoint, which registers it, or by its id.
abbrev register : Config → Option Text → Option Text → Handler Db Text
register config explicit_id (some endpoint_raw) = do
  (endpoint, suggested_id) ← lookup (λ _. parse_peer_endpoint endpoint_raw) bad_request
  demand (λ _. not (text_beq (id_or explicit_id suggested_id) config.node_id)) bad_request
  demand (λ _. not (is_own_endpoint config endpoint)) bad_request
  change (upsert_peer (id_or explicit_id suggested_id) endpoint)
  read (λ _. id_or explicit_id suggested_id)
register config explicit_id none = do
  node_id ← lookup (λ _. explicit_id) bad_request
  demand (λ _. not (text_beq node_id config.node_id)) bad_request
  read (λ _. node_id)

abbrev unassignable : Error → StatusCode
unassignable e =
    if says "not found" e
    then not_found
    else if says "must be" e
    then bad_request
    else internal_server_error

unfoldable pub add_bucket_node :
    Config
    → ℕ
    → ℕ
    → Option Text
    → Option Text
    → Option ℤ
    → QuotaMode
    → Handler Db (StatusCode × Unit {0})
add_bucket_node config auth id node_id endpoint allocated quota_mode = do
  require_replication_editor auth id
  allocated_bytes ← lookup (λ _. allocated) bad_request
  peer_id ← register config (trimmed_given node_id) (trimmed_given endpoint)
  attempt unassignable (assign_bucket_node id peer_id allocated_bytes quota_mode)
  answer_with no_content

abbrev optional_bytes : Option (Option ℤ) → Handler Db (Option ℤ)
optional_bytes none = read (λ _. none)
optional_bytes (some none) = refuse bad_request
optional_bytes (some (some bytes)) = read (λ _. some bytes)

abbrev unchanged_node : Error → StatusCode
unchanged_node e =
    if says "not found" e
    then not_found
    else if says "must be" e || says "no fields" e
    then bad_request
    else internal_server_error

unfoldable pub patch_bucket_node :
    ℕ → ℕ → Text → Option (Option ℤ) → Option QuotaMode → Handler Db (StatusCode × Unit {0})
patch_bucket_node auth id node_id allocated quota_mode = do
  require_replication_editor auth id
  allocated_bytes ← optional_bytes allocated
  attempt unchanged_node (update_bucket_node id node_id allocated_bytes quota_mode)
  answer_with no_content

abbrev unremoved : Error → StatusCode
unremoved e =
    if says "not found" e
    then not_found
    else if says "cannot remove" e
    then conflict
    else internal_server_error

unfoldable pub delete_bucket_node : Config → ℕ → ℕ → Text → Handler Db (StatusCode × Unit {0})
delete_bucket_node config auth id node_id = do
  require_replication_editor auth id
  attempt unremoved (remove_bucket_node id node_id config.node_id)
  answer_with no_content
