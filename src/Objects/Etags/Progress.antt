-- ===== src/Objects/Etags/Progress.antt =====
-- src/server/etag_rehash.rs: the progress of a rehash.
use my_s.Common.{
  Bool, List, Option, Option-cases, Text, [], any, ap, arith, codes, first, inl, inr, length,
  length-order_by, none, refl, select, some, sym, true, update, ℕ, ◌+◌, ◌∙◌, ◌∷◌, ◌≡◌,
}
use my_s.Database.{Db, Result, ok}
use my_s.Models.{BucketRecord, EtagType, ObjectRecord}
use my_s.Objects.Etags.{
  begin_bucket_etag_rehash, bump_bucket_etag_rehash_processed, bumped,
  count_active_objects_in_bucket, finish_bucket_etag_rehash, finished, is_hashed, latest,
  list_objects_for_etag_rehash, rehash_all, rehash_one, run_bucket_rehash, started,
  update_object_etag,
}
use my_s.Rbac.Permissions.{has_bucket_id}
use my_s.Replication.Outbox.{enqueue_for_active_peers}

first-update :
    (id : ℕ) (f : BucketRecord → BucketRecord) (l : List BucketRecord) (b : BucketRecord)
    → first (has_bucket_id id) l ≡ some b
    → (f b).id ≡ b.id
    → first (has_bucket_id id) (update (has_bucket_id id) f l) ≡ some (f b)
unfolding first update
first-update id f [] b h k = ground arith
first-update id f (x ∷ l) b h k = ground (arith, first-update id f l b)

first_found :
    (p : BucketRecord → Bool) (l : List BucketRecord) (b : BucketRecord)
    → first p l ≡ some b
    → any p l ≡ true
unfolding first any
first_found p [] b h = ground arith
first_found p (x ∷ l) b h = ground (arith, first_found p l b)

begun :
    (id n : ℕ) (db : Db) (r : BucketRecord)
    → first (has_bucket_id id) db.buckets ≡ some r
    → begin_bucket_etag_rehash id n db
      ≡ (ok tt, record db { buckets = update (has_bucket_id id) (started n) db.buckets })
unfolding begin_bucket_etag_rehash
begun id n db r h = rw (first_found (has_bucket_id id) db.buckets r h) refl

abbrev advanced : ℕ → BucketRecord → BucketRecord
advanced n r = record r { etag_rehash_processed = r.etag_rehash_processed + n }

advanced_zero : (r : BucketRecord) → advanced 0 r ≡ r
advanced_zero r = ap (λ n. record r { etag_rehash_processed = n }) (ground arith)

advanced_suc : (n : ℕ) (r : BucketRecord) → advanced n (bumped r) ≡ advanced (n + 1) r
advanced_suc n r = ap (λ m. record r { etag_rehash_processed = m }) (ground arith)

module _ (hash : Text → EtagType → Option Text) (now : ℕ) (node_id : Text) (id : ℕ)
    (t : EtagType) where
  rehash_one-buckets :
      (o : ObjectRecord) (db : Db) → (rehash_one hash now node_id id t o db).buckets ≡ db.buckets
  unfolding rehash_one update_object_etag enqueue_for_active_peers
  rehash_one-buckets o db = elim (Option-cases (hash o.filepath t)) [
    | inl e ↦ ground arith
    | inr (etag, e) ↦ ground arith
  ]

  bumped-bucket :
      (db : Db) (r : BucketRecord)
      → first (has_bucket_id id) db.buckets ≡ some r
      → first (has_bucket_id id) (bump_bucket_etag_rehash_processed id db).buckets ≡ some (bumped r)
  unfolding bump_bucket_etag_rehash_processed
  bumped-bucket db r h = first-update id bumped db.buckets r h refl

  rehash_all-progress :
      (os : List ObjectRecord) (db : Db) (r : BucketRecord)
      → first (has_bucket_id id) db.buckets ≡ some r
      → first (has_bucket_id id) (rehash_all hash now node_id id t os db).buckets
        ≡ some (advanced (length os) r)
  unfolding rehash_all
  rehash_all-progress [] db r h = h ∙ ap some (sym (advanced_zero r))
  rehash_all-progress (o ∷ os) db r h =
      rehash_all-progress os
        (bump_bucket_etag_rehash_processed id (rehash_one hash now node_id id t o db)) (bumped r)
        (bumped-bucket (rehash_one hash now node_id id t o db) r
          (ap (λ l. first (has_bucket_id id) l) (rehash_one-buckets o db) ∙ h))
      ∙ ap some (advanced_suc (length os) r ∙ ap (λ n. advanced n r) (ground arith))

  -- When a rehash of a known bucket is started with the number of its objects and then run, it ends
  -- as done, with as many objects processed as were announced and no error; whether each of them
  -- could be hashed or not.
  pub run_bucket_rehash-done :
      (db : Db) (r : BucketRecord)
      → first (has_bucket_id id) db.buckets ≡ some r
      → (let n = count_active_objects_in_bucket id db in
          first
            (has_bucket_id id)
            (run_bucket_rehash hash now node_id id t (begin_bucket_etag_rehash id n db).1).buckets
          ≡ some (record r {
            etag_rehash_status = some (codes "done");
            etag_rehash_processed = n;
            etag_rehash_total = n;
            etag_rehash_error = none;
          }))
  unfolding run_bucket_rehash finish_bucket_etag_rehash count_active_objects_in_bucket
      list_objects_for_etag_rehash
  run_bucket_rehash-done db r h =
      let n = count_active_objects_in_bucket id db in
      let os = list_objects_for_etag_rehash id db in
      let db' : Db = record db { buckets = update (has_bucket_id id) (started n) db.buckets } in
      let done = finished (codes "done") none in
      ap
        (λ (b : Result (Unit {0}) × Db).
          first (has_bucket_id id) (run_bucket_rehash hash now node_id id t b.1).buckets)
        (begun id n db r h)
      ∙ first-update id done (rehash_all hash now node_id id t os db').buckets
          (advanced (length os) (started n r))
          (rehash_all-progress os db' (started n r)
            (first-update id (started n) db.buckets r h refl))
          refl
      ∙ ap (λ k. some (record (done (started n r)) { etag_rehash_processed = k }))
          (ground (arith, length-order_by latest (select (is_hashed id) db.objects)))
