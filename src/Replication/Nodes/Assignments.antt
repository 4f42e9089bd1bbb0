-- ===== src/Replication/Nodes/Assignments.antt =====
-- src/db/repository.rs: the nodes of a bucket.
use my_s.Common.{
  Bool, List, Text, [], any, arith, delete, false, first, length, refl, select, some, text_beq,
  text_beq_refl, to_nat, true, update, ℕ, ℤ, ◌++◌, ◌+◌, ◌∷◌, ◌≡◌, ◌≤◌,
}
use my_s.Database.{Db, ok, transaction}
use my_s.Models.{BucketNodeAssignment, QuotaMode}
use my_s.Replication.Nodes.{assign_bucket_node, assigned, node_row, of_bucket, remove_bucket_node}

any-deleted :
    (p : BucketNodeAssignment → Bool) (l : List BucketNodeAssignment) → any p (delete p l) ≡ false
unfolding any delete
any-deleted p [] = refl
any-deleted p (a ∷ l) = ground (arith, any-deleted p l)

count-deleted :
    (b : ℕ) (peer_id : Text) (l : List BucketNodeAssignment)
    → length (select (of_bucket b) (delete (assigned b peer_id) l))
        + length (select (assigned b peer_id) l)
      ≡ length (select (of_bucket b) l)
unfolding select delete
count-deleted b peer_id [] = ground arith
count-deleted b peer_id (a ∷ l) = ground (arith, count-deleted b peer_id l)

abbrev pub assignments_after : ℕ → Text → Text → Db → List BucketNodeAssignment
assignments_after b peer_id local_node_id db =
    (remove_bucket_node b peer_id local_node_id db).1.assignments

-- If a peer is assigned to a bucket at most once, then after a successful `remove_bucket_node` the
-- peer, which is not the local node, is assigned to the bucket no more, and another one still is.
pub remove_bucket_node-ok :
    (b : ℕ) (peer_id local_node_id : Text) (db : Db)
    → length (select (assigned b peer_id) db.assignments) ≤ 1
    → (remove_bucket_node b peer_id local_node_id db).0 ≡ ok tt
    → (text_beq peer_id local_node_id ≡ false)
      × (any (assigned b peer_id) (assignments_after b peer_id local_node_id db) ≡ false)
      × (1 ≤ length (select (of_bucket b) (assignments_after b peer_id local_node_id db)))
unfolding remove_bucket_node
remove_bucket_node-ok b peer_id local_node_id db u h =
    ground (
      arith,
      any-deleted (assigned b peer_id) db.assignments,
      count-deleted b peer_id db.assignments,
    )

update-fixed :
    (p : BucketNodeAssignment → Bool) (a : BucketNodeAssignment) (l : List BucketNodeAssignment)
    → p a ≡ true
    → any p l ≡ true
    → first p (update p (λ _. a) l) ≡ some a
unfolding any first update
update-fixed p a [] h k = ground arith
update-fixed p a (x ∷ l) h k = ground (arith, update-fixed p a l)

update-any :
    (p : BucketNodeAssignment → Bool) (a : BucketNodeAssignment) (l : List BucketNodeAssignment)
    → p a ≡ true
    → any p (update p (λ _. a) l) ≡ any p l
unfolding any update
update-any p a [] h = refl
update-any p a (x ∷ l) h = ground (arith, update-any p a l)

first-none :
    (p : BucketNodeAssignment → Bool) (a : BucketNodeAssignment) (l : List BucketNodeAssignment)
    → p a ≡ true
    → any p l ≡ false
    → first p (l ++ a ∷ []) ≡ some a
unfolding any first
first-none p a [] h k = ground arith
first-none p a (x ∷ l) h k = ground (arith, first-none p a l)

assigned-node_row :
    (b : ℕ) (peer_id : Text) (n : ℕ) (mode : QuotaMode)
    → assigned b peer_id (node_row b peer_id n mode) ≡ true
assigned-node_row b peer_id n mode = ground (arith, text_beq_refl peer_id)

-- After a successful `assign_bucket_node` the peer is assigned to the bucket with the bytes and the
-- quota mode given, whether it was assigned before or not; and the bytes are positive.
assign_bucket_node-ok :
    (b : ℕ) (peer_id : Text) (bytes : ℤ) (mode : QuotaMode) (db : Db)
    → (assign_bucket_node b peer_id bytes mode db).0 ≡ ok tt
    → (first (assigned b peer_id) (assign_bucket_node b peer_id bytes mode db).1.assignments
        ≡ some (node_row b peer_id (to_nat bytes) mode))
      × (1 ≤ to_nat bytes)
unfolding assign_bucket_node transaction
assign_bucket_node-ok b peer_id bytes mode db h = ground (
  arith,
  assigned-node_row b peer_id (to_nat bytes) mode,
  update-fixed (assigned b peer_id) (node_row b peer_id (to_nat bytes) mode) db.assignments,
  first-none (assigned b peer_id) (node_row b peer_id (to_nat bytes) mode)
      (update (assigned b peer_id) (λ _. node_row b peer_id (to_nat bytes) mode) db.assignments),
  update-any (assigned b peer_id) (node_row b peer_id (to_nat bytes) mode) db.assignments,
)
