-- ===== src/Replication/Outbox/Claims.antt =====
-- src/db/repository.rs: the life of an outbox job.
use my_s.Common.{
  Bool, Bool-cases, List, Text, [], any, any-append, arith, false, inl, inr, nat_beq, nat_beq_iff,
  refl, text_beq_refl, true, update, ℕ, ◌&&◌, ◌∷◌, ◌≡◌,
}
use my_s.Database.{Db, ok}
use my_s.Models.{OutboxJob, OutboxRow, is_waiting, put_op}
use my_s.Replication.Outbox.{
  claim_outbox_jobs, due_rows, enqueue_put_for_peer, has_job_id, is_queued, join_rows, mark,
  mark_all, new_job,
}

-- After an `enqueue_put_for_peer` that succeeds, a second one for the same peer and file, with
-- whatever object and etag, succeeds and changes nothing.
pub enqueue_put_for_peer-again :
    (now later : ℕ) (peer_id : Text) (object_id other : ℕ) (uuid etag etag' : Text) (db : Db)
    → (enqueue_put_for_peer now peer_id object_id uuid etag db).0 ≡ ok tt
    → (let db' = (enqueue_put_for_peer now peer_id object_id uuid etag db).1 in
        enqueue_put_for_peer later peer_id other uuid etag' db' ≡ (ok tt, db'))
unfolding enqueue_put_for_peer any
enqueue_put_for_peer-again now later peer_id object_id other uuid etag etag' db h = ground (
  arith,
  text_beq_refl peer_id,
  text_beq_refl uuid,
  any-append (is_queued peer_id uuid) db.outbox
      (new_job now db.next_outbox peer_id object_id uuid etag put_op ∷ []),
)

abbrev pub waits : ℕ → OutboxRow → Bool
waits id r = has_job_id id r && is_waiting r.status

waits-mark : (id : ℕ) (l : List OutboxRow) → any (waits id) (update (has_job_id id) mark l) ≡ false
unfolding any update
waits-mark id [] = refl
waits-mark id (r ∷ l) = ground (arith, waits-mark id l)

waits-mark_other :
    (id other : ℕ) (l : List OutboxRow)
    → any (waits id) l ≡ false
    → any (waits id) (update (has_job_id other) mark l) ≡ false
unfolding any update
waits-mark_other id other [] h = refl
waits-mark_other id other (r ∷ l) h = ground (arith, waits-mark_other id other l)

waits-mark_rest :
    (id : ℕ) (js : List OutboxJob) (l : List OutboxRow)
    → any (waits id) l ≡ false
    → any (waits id) (mark_all js l) ≡ false
unfolding mark_all
waits-mark_rest id [] l h = h
waits-mark_rest id (j ∷ js) l h =
    waits-mark_rest id js (update (has_job_id j.id) mark l) (waits-mark_other id j.id l h)

waits-mark_all :
    (id : ℕ) (js : List OutboxJob) (l : List OutboxRow)
    → any (λ (j : OutboxJob). nat_beq j.id id) js ≡ true
    → any (waits id) (mark_all js l) ≡ false
unfolding mark_all any
waits-mark_all id [] l h = ground arith
waits-mark_all id (j ∷ js) l h = elim (Bool-cases (nat_beq j.id id)) [
  | inl e ↦ ground (
    arith,
    waits-mark id l,
    waits-mark_rest id js (update (has_job_id j.id) mark l),
    nat_beq_iff j.id id,
  )
  | inr e ↦ waits-mark_all id js (update (has_job_id j.id) mark l) (ground arith)
]

-- No job that `claim_outbox_jobs` returns waits in the outbox afterwards, so that no other claim
-- takes it until it has failed.
pub claim_outbox_jobs-claimed :
    (now limit : ℕ) (db : Db) (jobs : List OutboxJob) (id : ℕ)
    → (claim_outbox_jobs now limit db).0 ≡ ok jobs
    → any (λ (j : OutboxJob). nat_beq j.id id) jobs ≡ true
    → any (waits id) (claim_outbox_jobs now limit db).1.outbox ≡ false
unfolding claim_outbox_jobs
claim_outbox_jobs-claimed now limit db jobs id h k =
    ground (arith, waits-mark_all id (join_rows db (due_rows now limit db)) db.outbox)
