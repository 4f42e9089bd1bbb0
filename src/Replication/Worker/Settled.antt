-- ===== src/Replication/Worker/Settled.antt =====
-- src/cluster/worker.rs: what a tick leaves in the outbox.
use my_s.Common.{
  Bool, Bool-cases, List, [], any, arith, ltb, first, take, select, zero, suc, Option-cases, ◌∙◌,
  delete, false, inl, inr, nat_beq, nat_beq_iff, not, refl, true, update, ℕ, ◌&&◌, ◌∷◌, ◌≡◌,
}
use my_s.Database.{Db, ok}
use my_s.Models.{OutboxJob, OutboxRow, is_waiting}
use my_s.Replication.Outbox.{
  claim_outbox_jobs, complete_outbox_job, fail_outbox_job, fail_row, has_job_id, due_rows, is_due,
  join_rows, mark, mark_all,
}
use my_s.Replication.Nodes.{has_peer_id}
use my_s.Replication.Worker.{settle_job, settle_jobs, work_once}

-- A row of the job that does not wait for a later try.
abbrev pub strays : ℕ → ℕ → OutboxRow → Bool
strays now id r = has_job_id id r && not (is_waiting r.status && ltb now r.next_retry_utc)

deleted-strays :
    (now id other : ℕ) (l : List OutboxRow)
    → any (strays now id) l ≡ false
    → any (strays now id) (delete (has_job_id other) l) ≡ false
unfolding any delete
deleted-strays now id other [] h = refl
deleted-strays now id other (r ∷ l) h = ground (arith, deleted-strays now id other l)

failed-strays :
    (now id other : ℕ) (l : List OutboxRow)
    → any (strays now id) l ≡ false
    → any (strays now id) (update (has_job_id other) (fail_row now) l) ≡ false
unfolding any update
failed-strays now id other [] h = refl
failed-strays now id other (r ∷ l) h = ground (arith, failed-strays now id other l)

deleted-gone :
    (now id : ℕ) (l : List OutboxRow) → any (strays now id) (delete (has_job_id id) l) ≡ false
unfolding any delete
deleted-gone now id [] = refl
deleted-gone now id (r ∷ l) = ground (arith, deleted-gone now id l)

failed-landed :
    (now id : ℕ) (l : List OutboxRow)
    → any (strays now id) (update (has_job_id id) (fail_row now) l) ≡ false
unfolding any update
failed-landed now id [] = refl
failed-landed now id (r ∷ l) = ground (arith, failed-landed now id l)

module _ (send : OutboxJob → Bool) (now : ℕ) where
  settle_job-own :
      (j : OutboxJob) (db : Db) → any (strays now j.id) (settle_job send now j db).outbox ≡ false
  unfolding settle_job complete_outbox_job fail_outbox_job
  settle_job-own j db =
      ground (arith, deleted-gone now j.id db.outbox, failed-landed now j.id db.outbox)

  settle_job-other :
      (id : ℕ) (j : OutboxJob) (db : Db)
      → any (strays now id) db.outbox ≡ false
      → any (strays now id) (settle_job send now j db).outbox ≡ false
  unfolding settle_job complete_outbox_job fail_outbox_job
  settle_job-other id j db h =
      ground (arith, deleted-strays now id j.id db.outbox, failed-strays now id j.id db.outbox)

  settle_jobs-kept :
      (id : ℕ) (js : List OutboxJob) (db : Db)
      → any (strays now id) db.outbox ≡ false
      → any (strays now id) (settle_jobs send now js db).outbox ≡ false
  unfolding settle_jobs
  settle_jobs-kept id [] db h = h
  settle_jobs-kept id (j ∷ js) db h =
      settle_jobs-kept id js (settle_job send now j db) (settle_job-other id j db h)

  settle_jobs-own :
      (id : ℕ) (js : List OutboxJob) (db : Db)
      → any (λ (j : OutboxJob). nat_beq j.id id) js ≡ true
      → any (strays now id) (settle_jobs send now js db).outbox ≡ false
  unfolding settle_jobs any
  settle_jobs-own id [] db h = ground arith
  settle_jobs-own id (j ∷ js) db h = elim (Bool-cases (nat_beq j.id id)) [
    | inl e ↦ ground (
      arith,
      nat_beq_iff j.id id,
      settle_job-own j db,
      settle_jobs-kept id js (settle_job send now j db),
    )
    | inr e ↦ settle_jobs-own id js (settle_job send now j db) (ground arith)
  ]

deleted-held :
    (id other : ℕ) (l : List OutboxRow)
    → any (has_job_id id) (delete (has_job_id other) l)
      ≡ (any (has_job_id id) l && not (nat_beq other id))
unfolding any delete
deleted-held id other [] = refl
deleted-held id other (r ∷ l) = ground (arith, deleted-held id other l)

failed-held :
    (now id other : ℕ) (l : List OutboxRow)
    → any (has_job_id id) (update (has_job_id other) (fail_row now) l) ≡ any (has_job_id id) l
unfolding any update
failed-held now id other [] = refl
failed-held now id other (r ∷ l) = ground (arith, failed-held now id other l)

-- A job of the id that is delivered.
abbrev pub delivers : (OutboxJob → Bool) → ℕ → OutboxJob → Bool
delivers send id j = nat_beq j.id id && send j

settle_jobs-held :
    (send : OutboxJob → Bool) (now id : ℕ) (js : List OutboxJob) (db : Db)
    → any (has_job_id id) (settle_jobs send now js db).outbox
      ≡ (any (has_job_id id) db.outbox && not (any (delivers send id) js))
unfolding settle_jobs settle_job complete_outbox_job fail_outbox_job any
settle_jobs-held send now id [] db = ground arith
settle_jobs-held send now id (j ∷ js) db =
    settle_jobs-held send now id js (settle_job send now j db)
    ∙ ground (arith, deleted-held id j.id db.outbox, failed-held now id j.id db.outbox)

updated-held :
    (id other : ℕ) (l : List OutboxRow)
    → any (has_job_id id) (update (has_job_id other) mark l) ≡ any (has_job_id id) l
unfolding any update
updated-held id other [] = refl
updated-held id other (r ∷ l) = ground (arith, updated-held id other l)

marked-held :
    (id : ℕ) (js : List OutboxJob) (l : List OutboxRow)
    → any (has_job_id id) (mark_all js l) ≡ any (has_job_id id) l
unfolding mark_all
marked-held id [] l = refl
marked-held id (j ∷ js) l =
    marked-held id js (update (has_job_id j.id) mark l) ∙ updated-held id j.id l

-- Only rows of the outbox are claimed.
joined-held :
    (id : ℕ) (db : Db) (l : List OutboxRow)
    → any (λ (j : OutboxJob). nat_beq j.id id) (join_rows db l) ≡ true
    → any (has_job_id id) l ≡ true
unfolding join_rows any
joined-held id db [] h = h
joined-held id db (r ∷ l) h = elim (Option-cases (first (has_peer_id r.peer_id) db.peers)) [
  | inl e ↦ ground (arith, e, joined-held id db l)
  | inr (p, e) ↦ ground (arith, e, joined-held id db l)
]

taken-held :
    (p : OutboxRow → Bool) (n : ℕ) (l : List OutboxRow) → any p (take n l) ≡ true → any p l ≡ true
unfolding any
taken-held p zero l h = absurd (ground (arith, h))
taken-held p (suc n) [] h = h
taken-held p (suc n) (r ∷ l) h = ground (arith, taken-held p n l)

selected-held :
    (p q : OutboxRow → Bool) (l : List OutboxRow) → any q (select p l) ≡ true → any q l ≡ true
unfolding any select
selected-held p q [] h = h
selected-held p q (r ∷ l) h = ground (arith, selected-held p q l)

claimed-held :
    (now id : ℕ) (db : Db) (jobs : List OutboxJob)
    → (claim_outbox_jobs now 50 db).0 ≡ ok jobs
    → any (λ (j : OutboxJob). nat_beq j.id id) jobs ≡ true
    → any (has_job_id id) (claim_outbox_jobs now 50 db).1.outbox ≡ true
unfolding claim_outbox_jobs due_rows
claimed-held now id db jobs h k =
    let same : join_rows db (due_rows now 50 db) ≡ jobs = ground (arith, h) in
    marked-held id (join_rows db (due_rows now 50 db)) db.outbox
    ∙ selected-held (is_due now db) (has_job_id id) db.outbox (
        taken-held (has_job_id id) 50 (select (is_due now db) db.outbox)
          (joined-held id db (due_rows now 50 db) (rw same k)))

-- A turn of the worker settles the jobs that it claimed: a claimed job is in the outbox afterwards
-- exactly if it was not delivered, and then it waits for a try at a later time.
pub work_once-settled :
    (send : OutboxJob → Bool) (now : ℕ) (db : Db) (jobs : List OutboxJob) (id : ℕ)
    → (claim_outbox_jobs now 50 db).0 ≡ ok jobs
    → any (λ (j : OutboxJob). nat_beq j.id id) jobs ≡ true
    → (any (strays now id) (work_once send now db).outbox ≡ false)
      × (any (has_job_id id) (work_once send now db).outbox ≡ not (any (delivers send id) jobs))
unfolding work_once
work_once-settled send now db jobs id h k = (
  rw h (settle_jobs-own send now id jobs (claim_outbox_jobs now 50 db).1 k),
  rw h (
      settle_jobs-held send now id jobs (claim_outbox_jobs now 50 db).1
      ∙ rw (claimed-held now id db jobs h k) refl),
)
