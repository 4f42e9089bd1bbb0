-- ===== src/Server/Receive.antt =====
-- src/cluster/grpc_server.rs: objects that come from other nodes. The dates of a message are numbers
-- of the time scale, none where the text is empty.
pub mod Recorded
pub mod Repeated
use my_s.Common.{
  Bytes, List, Option, Text, [], codes, if◌then◌else◌, is_empty, map, none, some, trim, ℕ, ◌++◌,
  ◌∷◌,
}
use my_s.Database.{Db, Error, Exec, Result, err, ok, ◌>>=◌, ◌>>◌}
use my_s.Models.{EtagType, md5, parse_etag_type}
use my_s.Objects.Rows.{delete_object_by_filepath, insert_object_idempotent}
use my_s.Rbac.Buckets.{ensure_bucket, storage}
use my_s.Replication.Nodes.{update_peer_heartbeat, upsert_peer}
use my_s.Server.Blobs.{Store, StoredObject, unlink}
use my_s.Storage.Engine.{Disk, put_chunks}
use my_s.Storage.Hasher.{Digests}

-- The metadata of the message.
pub record ObjectMetadata : Type 0 where
  pub filepath_uuid : Text
  pub original_filename : Text
  pub file_format : Text
  pub etag_type : Text
  pub etag : Text
  pub date_uploaded : Option ℕ
  pub date_modified : Option ℕ
  pub bucket_name : Text

-- `ObjectChunk::content`, and the end of a stream whose transport fails.
pub data ObjectChunk : Type 0 where
  metadata : ObjectMetadata → ObjectChunk
  payload : Bytes → ObjectChunk
  no_content broken : ObjectChunk

abbrev last_metadata : ObjectMetadata → Option ObjectMetadata → Option ObjectMetadata
last_metadata m none = some m
last_metadata m (some later) = some later

abbrev with_chunk :
    ObjectChunk
    → Option (Option ObjectMetadata × List Bytes)
    → Option (Option ObjectMetadata × List Bytes)
with_chunk _ none = none
with_chunk (metadata m) (some (meta, chunks)) = some (last_metadata m meta, chunks)
with_chunk (payload bytes) (some (meta, chunks)) = some (meta, bytes ∷ chunks)
with_chunk no_content (some r) = some r
with_chunk broken (some r) = none

-- The last metadata and all payloads of the stream; none if it fails.
unfoldable pub read_chunks : List ObjectChunk → Option (Option ObjectMetadata × List Bytes)
read_chunks [] = some (none, [])
read_chunks (chunk ∷ stream) = with_chunk chunk (read_chunks stream)

abbrev pub target_bucket : Text → Text
target_bucket name = if is_empty (trim name) then storage else trim name

unfoldable pub record_received : ℕ → ObjectMetadata → StoredObject → Exec Db (Unit {0})
record_received now m stored = do
  bucket_id ← ensure_bucket now (target_bucket m.bucket_name)
  insert_object_idempotent now m.original_filename stored.filepath m.file_format
      stored.filesize_bytes m.etag_type stored.etag m.date_uploaded m.date_modified bucket_id

-- An acknowledgement with the confirmed etag, or a status; the panic of a hasher ends the call.
pub data ReplicationReply : Type 0 where
  acknowledged : Text → ReplicationReply
  failed : Error → ReplicationReply
  missing_metadata transport_failed panicked : ReplicationReply

pub record Replica : Type 0 where
  pub db : Db
  pub disk : Disk

abbrev pub acknowledge : StoredObject → Result (Unit {0}) → ReplicationReply
acknowledge stored (ok _) = acknowledged stored.etag
acknowledge stored (err e) = failed e

abbrev pub after_write :
    ℕ → ObjectMetadata → Option (Result StoredObject) → Disk → Db → ReplicationReply × Replica
after_write now m none disk db = (panicked, record { db = db; disk = disk })
after_write now m (some (err e)) disk db = (failed e, record { db = db; disk = disk })
after_write now m (some (ok stored)) disk db =
    let (r, db') = record_received now m stored db in
    (acknowledge stored r, record { db = db'; disk = disk })

-- `EtagType::from_str(..).unwrap_or(EtagType::Md5)`
abbrev pub or_md5 : Option EtagType → EtagType
or_md5 none = md5
or_md5 (some t) = t

module _ (d : Digests) (to_lowercase : Text → Text) (storage_root : Text) where
  abbrev pub receive_object : ℕ → ObjectMetadata → List Bytes → Replica → ReplicationReply × Replica
  receive_object now m chunks node =
      let (r, disk') =
        put_chunks d to_lowercase storage_root [] (map some chunks) m.original_filename
          (or_md5 (parse_etag_type m.etag_type)) (some m.etag) (some m.filepath_uuid) node.disk in
      after_write now m r disk' node.db

  abbrev pub receive_read :
      ℕ → Option (Option ObjectMetadata × List Bytes) → Replica → ReplicationReply × Replica
  receive_read now none node = (transport_failed, node)
  receive_read now (some (none, chunks)) node = (missing_metadata, node)
  receive_read now (some (some m, chunks)) node = receive_object now m chunks node

  unfoldable pub replicate_object : ℕ → List ObjectChunk → Replica → ReplicationReply × Replica
  replicate_object now stream node = receive_read now (read_chunks stream) node

-- The file goes first, whether there is one or not; then the row, in the bin or not.
unfoldable pub delete_object : Text → Store → Store
delete_object filepath_uuid s = record {
  db = (delete_object_by_filepath filepath_uuid s.db).1;
  files = unlink filepath_uuid s.files;
}

-- A heartbeat makes its sender known.
unfoldable pub ping_node : ℕ → Text → Text → Db → Db
ping_node now node_id wireguard_ip db =
    update_peer_heartbeat node_id now (upsert_peer node_id (wireguard_ip ++ codes ":50051") db)
