-- ===== src/Models/Cluster.antt =====
-- src/db/models.rs: peers, node assignments and outbox jobs.
use my_s.Common.{ℕ, Option, Bool, true, false, Text}
use my_s.Models.Storage.{EtagType}

pub record ClusterPeer : Type 0 where
  pub id : Text
  pub wireguard_endpoint : Text
  pub is_active : Bool
  pub last_heartbeat_utc : Option ℕ

pub data QuotaMode : Type 0 where
  soft hard : QuotaMode

abbrev pub is_hard : QuotaMode → Bool
is_hard hard = true
is_hard soft = false

pub record BucketNodeAssignment : Type 0 where
  pub bucket_id : ℕ
  pub peer_id : Text
  pub allocated_bytes : ℕ
  pub quota_mode : QuotaMode

pub data OutboxOperation : Type 0 where
  put_op delete_op : OutboxOperation

pub data OutboxStatus : Type 0 where
  pending in_flight completed failed : OutboxStatus

abbrev pub is_put : OutboxOperation → Bool
is_put put_op = true
is_put delete_op = false

-- status IN ('PENDING', 'FAILED')
abbrev pub is_waiting : OutboxStatus → Bool
is_waiting pending = true
is_waiting failed = true
is_waiting _ = false

-- status IN ('PENDING', 'FAILED', 'IN_FLIGHT')
abbrev pub is_live : OutboxStatus → Bool
is_live completed = false
is_live _ = true

-- A row of `replication_outbox`.
pub record OutboxRow : Type 0 where
  pub id : ℕ
  pub peer_id : Text
  pub object_id : Option ℕ
  pub filepath_uuid : Text
  pub etag : Text
  pub operation : OutboxOperation
  pub status : OutboxStatus
  pub attempt_count : ℕ
  pub next_retry_utc : ℕ

-- The row of the query that claims jobs: an outbox row joined with its peer and its object.
pub record OutboxJob : Type 0 where
  pub id : ℕ
  pub peer_id : Text
  pub object_id : Option ℕ
  pub filepath_uuid : Text
  pub etag : Text
  pub operation : OutboxOperation
  pub status : OutboxStatus
  pub attempt_count : ℕ
  pub wireguard_endpoint : Text
  pub original_filename : Option Text
  pub filepath : Text
  pub file_format : Option Text
  pub filesize_bytes : Option ℕ
  pub etag_type : Option EtagType
  pub object_etag : Text
  pub date_uploaded : Option ℕ
  pub date_modified : Option ℕ
  pub bucket_name : Option Text
