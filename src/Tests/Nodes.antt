-- ===== src/Tests/Nodes.antt =====
-- Runs of the theorems on replication.
use my_s.Common.{
  not, List, any, arith, codes, false, first, refl, select, sum, text_beq, ℕ, ◌+◌, ◌||◌, ◌≡◌,
}
use my_s.Database.{Db, Result}
use my_s.Models.{OutboxJob, md5, put_op}
use my_s.Objects.Rows.{get_object_by_id, insert_object_tx}
use my_s.Replication.Nodes.{bucket_used_bytes, check_hard_quota}
use my_s.Replication.Nodes.Quota.{WithinQuota, insert_object_tx-WithinQuota}
use my_s.Replication.Outbox.{
  claim_outbox_jobs, due_rows, has_job_id, enqueue_for_active_peers, enqueue_put_for_peer,
  join_rows,
}
use my_s.Replication.Outbox.Claims.{claim_outbox_jobs-claimed, waits}
use my_s.Replication.Outbox.Targets.{enqueue_for_active_peers-is_job, is_job, should_send}
use my_s.Replication.Worker.{work_once}
use my_s.Replication.Worker.Settled.{delivers, strays, work_once-settled}
use my_s.Tests.Data.{cat, sample}

enqueue_for_active_peers-is_job_example :
    any
      (is_job put_op (codes "n2") (codes "u1"))
      (enqueue_for_active_peers 200 put_op 1 (codes "u1") (codes "e0") (codes "n1") sample).1.outbox
    ≡ (any (is_job put_op (codes "n2") (codes "u1")) sample.outbox
        || should_send cat.bucket_id (codes "n2") (codes "n1") sample)
unfolding get_object_by_id first
enqueue_for_active_peers-is_job_example =
    enqueue_for_active_peers-is_job 200 put_op 1 (codes "u1") (codes "e0") (codes "n1") sample cat
      refl (codes "n2")

abbrev queued : Result (Unit {0}) × Db
queued = enqueue_put_for_peer 200 (codes "n2") 1 (codes "u1") (codes "e0") sample

abbrev claimed : Result (List OutboxJob) × Db
claimed = claim_outbox_jobs 300 10 queued.1

abbrev the_jobs : List OutboxJob
the_jobs = join_rows queued.1 (due_rows 300 10 queued.1)

claim_outbox_jobs-claimed_example : any (waits 1) claimed.1.outbox ≡ false
unfolding claim_outbox_jobs join_rows due_rows enqueue_put_for_peer any select first text_beq
    get_object_by_id
claim_outbox_jobs-claimed_example = claim_outbox_jobs-claimed 300 10 queued.1 the_jobs 1 refl refl

abbrev quota_put : Result ℕ × Db
quota_put =
    insert_object_tx 200 (codes "d") (codes "u4") (codes "txt") (2 + 1) md5 (codes "e1") 2 sample

insert_object_tx-WithinQuota_example :
    (bucket_used_bytes 2 quota_put.1 ≡ bucket_used_bytes 2 sample + (2 + 1))
    × WithinQuota 2 (bucket_used_bytes 2 quota_put.1) quota_put.1.assignments
unfolding insert_object_tx any text_beq check_hard_quota bucket_used_bytes sum select
insert_object_tx-WithinQuota_example =
    insert_object_tx-WithinQuota 200 (codes "d") (codes "u4") (codes "txt") 2 md5 (codes "e1") 2
      sample 4 refl refl (ground arith)

work_once-settled_example :
    (any (strays 300 1) (work_once (λ j. false) 300 queued.1).outbox ≡ false)
    × (any (has_job_id 1) (work_once (λ j. false) 300 queued.1).outbox
        ≡ not (any (delivers (λ j. false) 1) (join_rows queued.1 (due_rows 300 50 queued.1))))
unfolding claim_outbox_jobs join_rows due_rows enqueue_put_for_peer any select first text_beq
    get_object_by_id
work_once-settled_example =
    work_once-settled (λ j. false) 300 queued.1 (join_rows queued.1 (due_rows 300 50 queued.1)) 1
      refl refl
