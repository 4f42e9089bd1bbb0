-- ===== src/Replication/Outbox.antt =====
-- src/db/repository.rs: the outbox, the queue of objects to send to peers or to delete there.
pub mod Targets
pub mod Claims
use my_s.Common.{
  Bool, List, Option, Text, [], any, delete, first, if◌then◌else◌, leb, length, nat_beq, none, not,
  select, some, take, text_beq, update, ℕ, ◌&&◌, ◌*◌, ◌++◌, ◌+◌, ◌∷◌,
}
use my_s.Database.{Db, Exec, err, foreign_key_violation, ok}
use my_s.Models.{
  BucketRecord, ClusterPeer, ObjectRecord, OutboxJob, OutboxOperation, OutboxRow, delete_op, failed,
  in_flight, is_live, is_put, is_waiting, pending, put_op,
}
use my_s.Objects.Rows.{get_object_by_id, has_object_id}
use my_s.Rbac.Permissions.{has_bucket_id}
use my_s.Replication.Nodes.{has_peer_id, is_active_peer, receives}

abbrev pub new_job : ℕ → ℕ → Text → ℕ → Text → Text → OutboxOperation → OutboxRow
new_job now id peer_id object_id uuid etag operation = record {
  id = id;
  peer_id = peer_id;
  object_id = some object_id;
  filepath_uuid = uuid;
  etag = etag;
  operation = operation;
  status = pending;
  attempt_count = 0;
  next_retry_utc = now;
}

-- The bucket of an object, and so of its jobs: object JOIN bucket.
abbrev pub bucket_of : ℕ → Db → Option BucketRecord
bucket_of object_id db = elim (get_object_by_id object_id db) [
  | none ↦ none
  | some o ↦ first (has_bucket_id o.bucket_id) db.buckets
]

-- The WHERE clause of the jobs' peers.
abbrev pub is_target_peer : BucketRecord → Text → Db → ClusterPeer → Bool
is_target_peer b exclude_peer_id db p =
    p.is_active && (not (text_beq p.id exclude_peer_id) && receives b p.id db)

abbrev pub target_peers : Option BucketRecord → Text → Db → List ClusterPeer
target_peers none exclude_peer_id db = []
target_peers (some b) exclude_peer_id db = select (is_target_peer b exclude_peer_id db) db.peers

unfoldable pub jobs_for : (ℕ → Text → OutboxRow) → ℕ → List ClusterPeer → List OutboxRow
jobs_for job n [] = []
jobs_for job n (p ∷ ps) = job n p.id ∷ jobs_for job (n + 1) ps

-- INSERT INTO replication_outbox … SELECT, for either operation; returns the number of jobs.
unfoldable pub enqueue_for_active_peers : ℕ → OutboxOperation → ℕ → Text → Text → Text → Exec Db ℕ
enqueue_for_active_peers now operation object_id uuid etag exclude_peer_id db =
    let targets = target_peers (bucket_of object_id db) exclude_peer_id db in
    (
      ok (length targets),
      record db {
        outbox =
            db.outbox
            ++ jobs_for (λ n p. new_job now n p object_id uuid etag operation) db.next_outbox
                targets;
        next_outbox = db.next_outbox + length targets;
      },
    )

abbrev pub enqueue_put_for_active_peers : ℕ → ℕ → Text → Text → Text → Exec Db ℕ
enqueue_put_for_active_peers now = enqueue_for_active_peers now put_op

abbrev pub enqueue_delete_for_active_peers : ℕ → ℕ → Text → Text → Text → Exec Db ℕ
enqueue_delete_for_active_peers now = enqueue_for_active_peers now delete_op

-- The columns of the joined object and bucket, NULL without one.
abbrev column {ℓ} : {A : Type 0} {B : Type ℓ} → (A → B) → Option A → Option B
column f none = none
column f (some a) = some (f a)

abbrev joined : Option ObjectRecord → Db → Option BucketRecord
joined none db = none
joined (some o) db = first (has_bucket_id o.bucket_id) db.buckets

abbrev value_or : Text → Option Text → Text
value_or d none = d
value_or d (some t) = t

abbrev object_of : OutboxRow → Db → Option ObjectRecord
object_of r db = elim r.object_id [ none ↦ none | some id ↦ get_object_by_id id db ]

abbrev job_of : OutboxRow → ClusterPeer → Option ObjectRecord → Option BucketRecord → OutboxJob
job_of r p o b = record {
  id = r.id;
  peer_id = r.peer_id;
  object_id = r.object_id;
  filepath_uuid = r.filepath_uuid;
  etag = r.etag;
  operation = r.operation;
  status = r.status;
  attempt_count = r.attempt_count;
  wireguard_endpoint = p.wireguard_endpoint;
  original_filename = column (λ (o : ObjectRecord). o.original_filename) o;
  filepath = value_or r.filepath_uuid (column (λ (o : ObjectRecord). o.filepath) o);
  file_format = column (λ (o : ObjectRecord). o.file_format) o;
  filesize_bytes = column (λ (o : ObjectRecord). o.filesize_bytes) o;
  etag_type = column (λ (o : ObjectRecord). o.etag_type) o;
  object_etag = value_or r.etag (column (λ (o : ObjectRecord). o.etag) o);
  date_uploaded = column (λ (o : ObjectRecord). o.date_uploaded) o;
  date_modified = column (λ (o : ObjectRecord). o.date_modified) o;
  bucket_name = column (λ (b : BucketRecord). b.name) b;
}

-- Waiting, due, and for an active peer.
abbrev pub is_due : ℕ → Db → OutboxRow → Bool
is_due now db r =
    is_waiting r.status && (leb r.next_retry_utc now && any (is_active_peer r.peer_id) db.peers)

-- The rows come in the order of their ids, which is the order of the table.
unfoldable pub due_rows : ℕ → ℕ → Db → List OutboxRow
due_rows now limit db = take limit (select (is_due now db) db.outbox)

abbrev join_peer : OutboxRow → Db → Option ClusterPeer → List OutboxJob
join_peer r db none = []
join_peer r db (some p) = job_of r p (object_of r db) (joined (object_of r db) db) ∷ []

unfoldable pub join_rows : Db → List OutboxRow → List OutboxJob
join_rows db [] = []
join_rows db (r ∷ rs) = join_peer r db (first (has_peer_id r.peer_id) db.peers) ++ join_rows db rs

abbrev pub has_job_id : ℕ → OutboxRow → Bool
has_job_id id r = nat_beq r.id id

abbrev pub mark : OutboxRow → OutboxRow
mark r = record r { status = in_flight }

-- The loop over the claimed jobs.
unfoldable pub mark_all : List OutboxJob → List OutboxRow → List OutboxRow
mark_all [] outbox = outbox
mark_all (j ∷ js) outbox = mark_all js (update (has_job_id j.id) mark outbox)

unfoldable pub claim_outbox_jobs : ℕ → ℕ → Exec Db (List OutboxJob)
claim_outbox_jobs now limit db =
    let jobs = join_rows db (due_rows now limit db) in
    (ok jobs, record db { outbox = mark_all jobs db.outbox })

unfoldable pub complete_outbox_job : ℕ → Db → Db
complete_outbox_job id db = record db { outbox = delete (has_job_id id) db.outbox }

-- The next try comes 30 seconds later for every try before.
abbrev pub fail_row : ℕ → OutboxRow → OutboxRow
fail_row now r = record r {
  status = failed;
  attempt_count = r.attempt_count + 1;
  next_retry_utc = now + (r.attempt_count + 1) * 30;
}

unfoldable pub fail_outbox_job : ℕ → ℕ → Db → Db
fail_outbox_job now id db = record db { outbox = update (has_job_id id) (fail_row now) db.outbox }

-- A live PUT job of the peer and the file.
abbrev pub is_queued : Text → Text → OutboxRow → Bool
is_queued peer_id uuid r =
    text_beq r.peer_id peer_id
    && (text_beq r.filepath_uuid uuid && (is_put r.operation && is_live r.status))

unfoldable pub enqueue_put_for_peer : ℕ → Text → ℕ → Text → Text → Exec Db (Unit {0})
enqueue_put_for_peer now peer_id object_id uuid etag db =
    if any (is_queued peer_id uuid) db.outbox
    then (ok tt, db)
    else if not (any (has_peer_id peer_id) db.peers && any (has_object_id object_id) db.objects)
    then (err foreign_key_violation, db)
    else (
      ok tt,
      record db {
        outbox = db.outbox ++ new_job now db.next_outbox peer_id object_id uuid etag put_op ∷ [];
        next_outbox = db.next_outbox + 1;
      },
    )
