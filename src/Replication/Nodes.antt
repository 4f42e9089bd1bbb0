-- ===== src/Replication/Nodes.antt =====
-- src/db/repository.rs: peers, the nodes assigned to a bucket, and their quotas.
pub mod Quota
pub mod Assignments
use my_s.Common.{
  Bool, List, Option, Text, [], any, delete, false, first, if◌then◌else◌, leb, length, ltb, map,
  min, nat_beq, non_positive, none, not, order_by, select, some, sum, text_beq, text_leb, to_nat,
  true, update, ℕ, ℤ, ◌&&◌, ◌*◌, ◌++◌, ◌+◌, ◌||◌, ◌∷◌,
}
use my_s.Database.{
  Db, Exec, Result, assignment_not_found, bucket_not_found, bytes_not_positive, context, err,
  foreign_key_violation, gets, guard, last_node_unremovable, local_node_unremovable, modify,
  no_fields, ok, peer_not_found, pure, quota_exceeded, transaction, ◌>>=◌, ◌>>◌,
}
use my_s.Models.{
  BucketNodeAssignment, BucketRecord, ClusterPeer, ObjectRecord, QuotaMode, i64_max, is_hard, soft,
}
use my_s.Objects.Rows.{is_active}
use my_s.Rbac.Permissions.{has_bucket_id}

abbrev pub default_node_allocated_bytes : ℕ
default_node_allocated_bytes = 100 * 1024 * 1024 * 1024

abbrev pub has_peer_id : Text → ClusterPeer → Bool
has_peer_id id p = text_beq p.id id

abbrev pub is_active_peer : Text → ClusterPeer → Bool
is_active_peer id p = has_peer_id id p && p.is_active

abbrev new_peer : Text → Text → ClusterPeer
new_peer id endpoint = record {
  id = id;
  wireguard_endpoint = endpoint;
  is_active = true;
  last_heartbeat_utc = none;
}

unfoldable pub upsert_peer : Text → Text → Db → Db
upsert_peer id endpoint db = record db {
  peers =
      if any (has_peer_id id) db.peers
      then update (has_peer_id id)
          (λ p. record p { wireguard_endpoint = endpoint; is_active = true }) db.peers
      else db.peers ++ new_peer id endpoint ∷ [];
}

unfoldable pub list_active_peers : Db → List ClusterPeer
list_active_peers db = select (λ (p : ClusterPeer). p.is_active) db.peers

unfoldable pub update_peer_heartbeat : Text → ℕ → Db → Db
update_peer_heartbeat id when_utc db = record db {
  peers = update (has_peer_id id) (λ p. record p { last_heartbeat_utc = some when_utc }) db.peers;
}

abbrev pub assigned : ℕ → Text → BucketNodeAssignment → Bool
assigned bucket_id peer_id a = nat_beq a.bucket_id bucket_id && text_beq a.peer_id peer_id

-- b.replicate_to_all = 1 OR EXISTS (an assignment of the peer)
abbrev pub receives : BucketRecord → Text → Db → Bool
receives b peer_id db = b.replicate_to_all || any (assigned b.id peer_id) db.assignments

-- The id is the primary key of the buckets.
unfoldable pub peer_should_receive_bucket : Text → ℕ → Db → Bool
peer_should_receive_bucket peer_id bucket_id db =
    elim (first (has_bucket_id bucket_id) db.buckets) [
      | none ↦ false
      | some b ↦ receives b peer_id db
    ]

abbrev peer_leb : BucketNodeAssignment → BucketNodeAssignment → Bool
peer_leb a b = text_leb a.peer_id b.peer_id

abbrev pub of_bucket : ℕ → BucketNodeAssignment → Bool
of_bucket bucket_id a = nat_beq a.bucket_id bucket_id

unfoldable pub list_bucket_node_assignments : ℕ → Db → List BucketNodeAssignment
list_bucket_node_assignments bucket_id db =
    order_by peer_leb (select (of_bucket bucket_id) db.assignments)

unfoldable pub get_bucket_replication : ℕ → Db → Result (Bool × List Text)
get_bucket_replication bucket_id db = elim (first (has_bucket_id bucket_id) db.buckets) [
  | none ↦ err bucket_not_found
  | some b ↦ ok (
    b.replicate_to_all,
    map (λ (a : BucketNodeAssignment). a.peer_id) (list_bucket_node_assignments bucket_id db),
  )
]

unfoldable pub list_bucket_ids : Db → List ℕ
list_bucket_ids db = order_by leb (map (λ (b : BucketRecord). b.id) db.buckets)

abbrev pub set_replicate_to_all : ℕ → Bool → Db → Db
set_replicate_to_all bucket_id value db = record db {
  buckets =
      update (has_bucket_id bucket_id) (λ b. record b { replicate_to_all = value }) db.buckets;
}

abbrev pub node_row : ℕ → Text → ℕ → QuotaMode → BucketNodeAssignment
node_row bucket_id peer_id bytes mode = record {
  bucket_id = bucket_id;
  peer_id = peer_id;
  allocated_bytes = bytes;
  quota_mode = mode;
}

-- INSERT … DO NOTHING, or OR IGNORE, in `bucket_replication_peer`
abbrev pub insert_node : BucketNodeAssignment → Exec Db (Unit {0})
insert_node a db =
    if any (assigned a.bucket_id a.peer_id) db.assignments
    then (ok tt, db)
    else if not (any (has_bucket_id a.bucket_id) db.buckets && any (has_peer_id a.peer_id) db.peers)
    then (err foreign_key_violation, db)
    else (ok tt, record db { assignments = db.assignments ++ a ∷ [] })

unfoldable pub ensure_bucket_node_assignment : ℕ → Text → ℕ → QuotaMode → Exec Db (Unit {0})
ensure_bucket_node_assignment bucket_id peer_id allocated_bytes quota_mode =
    insert_node (node_row bucket_id peer_id allocated_bytes quota_mode)

abbrev pub add_peer : ℕ → Text → Exec Db (Unit {0})
add_peer bucket_id peer_id db =
    if any (is_active_peer peer_id) db.peers
    then insert_node (node_row bucket_id peer_id default_node_allocated_bytes soft) db
    else (ok tt, db)

unfoldable pub add_peers : ℕ → List Text → Exec Db (Unit {0})
add_peers bucket_id [] = pure tt
add_peers bucket_id (peer_id ∷ peer_ids) =
    add_peer bucket_id peer_id >> add_peers bucket_id peer_ids

unfoldable pub set_bucket_replication : ℕ → Bool → List Text → Exec Db (Unit {0})
set_bucket_replication bucket_id replicate_to_all peer_ids = transaction (do
  known ← gets (λ db. any (has_bucket_id bucket_id) db.buckets)
  modify (set_replicate_to_all bucket_id replicate_to_all)
  guard known bucket_not_found
  modify (λ db. record db { assignments = delete (of_bucket bucket_id) db.assignments })
  if replicate_to_all then pure tt else add_peers bucket_id peer_ids)

-- `allocated_bytes <= 0` fails; the tests come before the statements of the transaction.
unfoldable pub assign_bucket_node : ℕ → Text → ℤ → QuotaMode → Exec Db (Unit {0})
assign_bucket_node bucket_id peer_id allocated_bytes quota_mode = do
  guard (not (non_positive allocated_bytes)) bytes_not_positive
  known ← gets (λ db. any (is_active_peer peer_id) db.peers)
  guard known peer_not_found
  transaction (do
    modify (set_replicate_to_all bucket_id false)
    modify (λ db. record db {
      assignments =
          update (assigned bucket_id peer_id)
            (λ _. node_row bucket_id peer_id (to_nat allocated_bytes) quota_mode) db.assignments;
    })
    insert_node (node_row bucket_id peer_id (to_nat allocated_bytes) quota_mode))

abbrev bytes_or : ℕ → Option ℤ → ℕ
bytes_or old none = old
bytes_or old (some v) = to_nat v

abbrev mode_or : QuotaMode → Option QuotaMode → QuotaMode
mode_or old none = old
mode_or old (some m) = m

abbrev no_fields_given : Option ℤ → Option QuotaMode → Bool
no_fields_given none none = true
no_fields_given _ _ = false

abbrev rejected : Option ℤ → Bool
rejected none = false
rejected (some v) = non_positive v

unfoldable pub update_bucket_node : ℕ → Text → Option ℤ → Option QuotaMode → Exec Db (Unit {0})
update_bucket_node bucket_id peer_id allocated_bytes quota_mode = do
  guard (not (no_fields_given allocated_bytes quota_mode)) no_fields
  guard (not (rejected allocated_bytes)) bytes_not_positive
  row ← λ db. context (first (assigned bucket_id peer_id) db.assignments) assignment_not_found db
  transaction (do
    modify (set_replicate_to_all bucket_id false)
    modify (λ db. record db {
      assignments =
          update (assigned bucket_id peer_id)
            (λ a. record a {
              allocated_bytes = bytes_or row.allocated_bytes allocated_bytes;
              quota_mode = mode_or row.quota_mode quota_mode;
            })
            db.assignments;
    }))

unfoldable pub remove_bucket_node : ℕ → Text → Text → Exec Db (Unit {0})
remove_bucket_node bucket_id peer_id local_node_id = do
  guard (not (text_beq peer_id local_node_id)) local_node_unremovable
  count ← gets (λ db. length (select (of_bucket bucket_id) db.assignments))
  guard (ltb 1 count) last_node_unremovable
  present ← gets (λ db. any (assigned bucket_id peer_id) db.assignments)
  modify (λ db. record db { assignments = delete (assigned bucket_id peer_id) db.assignments })
  guard present assignment_not_found
  modify (set_replicate_to_all bucket_id false)

unfoldable pub bucket_used_bytes : ℕ → Db → ℕ
bucket_used_bytes bucket_id db =
    sum (λ (o : ObjectRecord). o.filesize_bytes)
      (select (λ o. nat_beq o.bucket_id bucket_id && is_active o) db.objects)

abbrev pub exceeds : ℕ → BucketNodeAssignment → Bool
exceeds projected a = ltb a.allocated_bytes projected

-- `net_growth` is what an upload adds less what it replaces; the sum saturates.
unfoldable pub check_hard_quota : ℕ → ℤ → Db → Result (Unit {0})
check_hard_quota bucket_id net_growth db =
    let projected = min (bucket_used_bytes bucket_id db + to_nat net_growth) i64_max in
    if non_positive net_growth
    then ok tt
    else if any (λ a. of_bucket bucket_id a && is_hard a.quota_mode && exceeds projected a)
        db.assignments
    then err quota_exceeded
    else ok tt
