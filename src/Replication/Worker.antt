-- ===== src/Replication/Worker.antt =====
-- src/cluster/worker.rs: a tick of the worker that delivers the jobs of the outbox.
pub mod Settled
use my_s.Common.{Bool, List, [], if◌then◌else◌, ℕ, ◌∷◌}
use my_s.Database.{Db, Result, err, ok}
use my_s.Models.{OutboxJob}
use my_s.Replication.Outbox.{claim_outbox_jobs, complete_outbox_job, fail_outbox_job}

-- `send` delivers a job to its peer and tells whether that succeeded. All results of a tick are
-- booked at one time.
module _ (send : OutboxJob → Bool) (now : ℕ) where
  unfoldable pub settle_job : OutboxJob → Db → Db
  settle_job job db =
      if send job then complete_outbox_job job.id db else fail_outbox_job now job.id db

  unfoldable pub settle_jobs : List OutboxJob → Db → Db
  settle_jobs [] db = db
  settle_jobs (job ∷ jobs) db = settle_jobs jobs (settle_job job db)

  abbrev settle_claimed : Result (List OutboxJob) → Db → Db
  settle_claimed (ok jobs) db = settle_jobs jobs db
  settle_claimed (err e) db = db

  -- One turn of the loop: at most 50 jobs.
  unfoldable pub work_once : Db → Db
  work_once db = let (jobs, db') = claim_outbox_jobs now 50 db in settle_claimed jobs db'
