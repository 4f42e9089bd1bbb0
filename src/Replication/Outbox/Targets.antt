-- ===== src/Replication/Outbox/Targets.antt =====
-- src/db/repository.rs: which peers an object goes to.
use my_s.Common.{
  Bool, List, Option, Text, [], any, any-append, any-select, ap, arith, false, none, not, refl,
  some, text_beq, text_beq_iff, text_beq_refl, true, ℕ, ◌&&◌, ◌+◌, ◌||◌, ◌∙◌, ◌∷◌, ◌≡◌,
}
use my_s.Database.{Db}
use my_s.Models.{
  BucketRecord, ClusterPeer, ObjectRecord, OutboxOperation, OutboxRow, delete_op, is_put,
  is_waiting, put_op,
}
use my_s.Objects.Rows.{get_object_by_id}
use my_s.Replication.Nodes.{is_active_peer, peer_should_receive_bucket, receives}
use my_s.Replication.Outbox.{
  bucket_of, enqueue_for_active_peers, is_target_peer, jobs_for, new_job, target_peers,
}

-- The peer is known and active, it is not the excluded one, and it should receive the bucket of the
-- object, all as `peer_should_receive_bucket` and the tables tell.
abbrev pub should_send : ℕ → Text → Text → Db → Bool
should_send bucket_id peer_id exclude_peer_id db =
    any (is_active_peer peer_id) db.peers
    && (not (text_beq peer_id exclude_peer_id) && peer_should_receive_bucket peer_id bucket_id db)

target_any :
    (b : BucketRecord) (peer_id x : Text) (db : Db) (ps : List ClusterPeer)
    → any (λ p. is_target_peer b x db p && text_beq p.id peer_id) ps
      ≡ (any (is_active_peer peer_id) ps && (not (text_beq peer_id x) && receives b peer_id db))
unfolding any
target_any b peer_id x db [] = refl
target_any b peer_id x db (p ∷ ps) =
    ground (arith, text_beq_iff p.id peer_id, target_any b peer_id x db ps)

abbrev same_op : OutboxOperation → OutboxOperation → Bool
same_op put_op op = is_put op
same_op delete_op op = not (is_put op)

-- A pending job of the operation for the peer and the file.
abbrev pub is_job : OutboxOperation → Text → Text → OutboxRow → Bool
is_job op peer_id uuid r =
    text_beq r.peer_id peer_id
    && (text_beq r.filepath_uuid uuid && (same_op op r.operation && is_waiting r.status))

same_op_refl : (op : OutboxOperation) → same_op op op ≡ true
same_op_refl put_op = refl
same_op_refl delete_op = refl

jobs_for-is_job :
    (now : ℕ) (op : OutboxOperation) (object_id : ℕ) (uuid etag peer_id : Text) (n : ℕ)
    (ps : List ClusterPeer)
    → any (is_job op peer_id uuid) (jobs_for (λ m p. new_job now m p object_id uuid etag op) n ps)
      ≡ any (λ (p : ClusterPeer). text_beq p.id peer_id) ps
unfolding any jobs_for
jobs_for-is_job now op object_id uuid etag peer_id n [] = refl
jobs_for-is_job now op object_id uuid etag peer_id n (p ∷ ps) = ground (
  arith,
  same_op_refl op,
  text_beq_refl uuid,
  jobs_for-is_job now op object_id uuid etag peer_id (n + 1) ps,
)

target_peers-any :
    (m : Option BucketRecord) (peer_id x : Text) (db : Db)
    → any (λ (p : ClusterPeer). text_beq p.id peer_id) (target_peers m x db) ≡ (
        any (is_active_peer peer_id) db.peers
        && (not (text_beq peer_id x) && elim m [ none ↦ false | some b ↦ receives b peer_id db ]))
unfolding any
target_peers-any none peer_id x db = ground arith
target_peers-any (some b) peer_id x db =
    any-select (is_target_peer b x db) (λ (p : ClusterPeer). text_beq p.id peer_id) db.peers
    ∙ target_any b peer_id x db db.peers

-- For an object that is in the table, PUT and DELETE alike: after the enqueueing a peer has a job of
-- the operation for the file if it had one before, or if it is known and active, is not the excluded
-- one, and should receive the bucket of the object by `peer_should_receive_bucket`; and not else.
pub enqueue_for_active_peers-is_job :
    (now : ℕ) (op : OutboxOperation) (object_id : ℕ) (uuid etag exclude_peer_id : Text) (db : Db)
    (o : ObjectRecord)
    → get_object_by_id object_id db ≡ some o
    → (peer_id : Text)
    → any
        (is_job op peer_id uuid)
        (enqueue_for_active_peers now op object_id uuid etag exclude_peer_id db).1.outbox
      ≡ (any (is_job op peer_id uuid) db.outbox
          || should_send o.bucket_id peer_id exclude_peer_id db)
unfolding enqueue_for_active_peers peer_should_receive_bucket
enqueue_for_active_peers-is_job now op object_id uuid etag x db o h peer_id =
    any-append (is_job op peer_id uuid) db.outbox (
      jobs_for (λ m p. new_job now m p object_id uuid etag op) db.next_outbox
        (target_peers (bucket_of object_id db) x db))
    ∙ ap (λ b. any (is_job op peer_id uuid) db.outbox || b)
        (jobs_for-is_job now op object_id uuid etag peer_id db.next_outbox
            (target_peers (bucket_of object_id db) x db)
          ∙ target_peers-any (bucket_of object_id db) peer_id x db
          ∙ ground (arith, h))
