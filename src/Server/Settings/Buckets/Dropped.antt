-- ===== src/Server/Settings/Buckets/Dropped.antt =====
-- src/server/settings_routes.rs: the handler that deletes a bucket.
use my_s.Common.{
  Bool, Bool-cases, List, Option-cases, Text, [], any, any-cong, any-delete, any-map, ap, arith,
  contains, delete, delete-delete, delete-never, false, first, first-any, first-holds,
  if◌then◌else◌, inl, inr, map, nat_beq, nat_beq_refl, refl, select, some, starts_with, sym,
  text_beq, true, ℕ, ◌||◌, ◌∙◌, ◌∷◌, ◌≡◌,
}
use my_s.Database.{Db, err, foreign_key_violation, ok}
use my_s.Models.{BucketNodeAssignment, BucketRecord, ObjectRecord, RoleBucketPermission}
use my_s.Objects.Rows.{get_object_by_id, has_object_id}
use my_s.Objects.Rows.Unique.{IsValid, UniqueRows, clashes}
use my_s.Rbac.Buckets.{
  delete_bucket, delete_bucket_row, in_bucket, list_object_ids_in_bucket, share_in_bucket, storage,
}
use my_s.Rbac.Permissions.{account_owns_bucket, get_bucket_by_id, has_bucket_id}
use my_s.Server.Blobs.{Store}
use my_s.Server.Blobs.Purged.{any-never, delete-cong, delete-selected, same_id}
use my_s.Server.Http.{
  answer_with, attempt, internal_server_error, message, no_content, on_db, refused, served, ◌>>◌,
}
use my_s.Server.Settings.Buckets.{delete_bucket_by, purge_objects, undeleted_bucket}
use my_s.Server.Settings.Purge.{hard_purge_object}
use my_s.Server.Settings.Purge.Removed.{hard_purge_object-found, hard_purge_object-only}

abbrev Distinct : List ℕ → Type 0
Distinct [] = Unit
Distinct (i ∷ ids) = (any (nat_beq i) ids ≡ false) × Distinct ids

-- Each id is that of a row.
abbrev Stored : List ObjectRecord → List ℕ → Type 0
Stored objects [] = Unit
Stored objects (i ∷ ids) = (any (has_object_id i) objects ≡ true) × Stored objects ids

stays_in_table :
    (i : ℕ) (objects : List ObjectRecord) (ids : List ℕ)
    → any (nat_beq i) ids ≡ false
    → Stored objects ids
    → Stored (delete (has_object_id i) objects) ids
unfolding any
stays_in_table i objects [] h k = tt
stays_in_table i objects (j ∷ ids) h k = (
  any-delete (has_object_id j) (has_object_id i) objects (λ x e. ground arith) k.0,
  stays_in_table i objects ids (ground arith) k.1,
)

abbrev one_of : List ℕ → ObjectRecord → Bool
one_of ids o = any (nat_beq o.id) ids

found_row :
    (i : ℕ) (l : List ObjectRecord)
    → any (has_object_id i) l ≡ true
    → (o : ObjectRecord) × (first (has_object_id i) l ≡ some o) × (o.id ≡ i)
found_row i l h = elim (Option-cases (first (has_object_id i) l)) [
  | inl e ↦ absurd (ground (arith, first-any (has_object_id i) l e))
  | inr (o, e) ↦ (o, e, ground (arith, first-holds (has_object_id i) l o e))
]

-- The database without the rows of the table `object` that a test holds for, and another outbox.
abbrev pub purged_of : (ObjectRecord → Bool) → Db → Db → Db
purged_of p after db = record db {
  objects = delete p db.objects;
  outbox = after.outbox;
  next_outbox = after.next_outbox;
}

-- The loop over the ids of stored objects, each once, purges them all, and changes nothing else but
-- the outbox.
purge_objects-all :
    (now : ℕ) (node_id : Text) (ids : List ℕ) (s : Store)
    → Distinct ids
    → Stored s.db.objects ids
    → (let r = purge_objects now node_id ids s in
        (r.0 ≡ ok tt) × (r.1.db ≡ purged_of (one_of ids) r.1.db s.db))
unfolding purge_objects any get_object_by_id
purge_objects-all now node_id [] s d k =
    (refl, ap (λ l. record s.db { objects = l }) (sym (delete-never s.db.objects)))
purge_objects-all now node_id (i ∷ ids) s d k =
    let (o, f, same) = found_row i s.db.objects k.0 in
    let (won, left, _) = hard_purge_object-found now node_id i o s f in
    let s1 = (hard_purge_object now node_id i s).1 in
    let only : s1.db ≡ purged_of (has_object_id i) s1.db s.db =
      hard_purge_object-only now node_id i o s f
      ∙ ap (λ j. purged_of (has_object_id j) s1.db s.db) same in
    let (a, b) =
      purge_objects-all now node_id ids s1 d.1
        (rw (ap (λ (x : Db). x.objects) only) (stays_in_table i s.db.objects ids d.0 k.1)) in
    let after = (purge_objects now node_id ids s1).1.db in
    (
      rw won a,
      rw won (
          b
          ∙ ap (λ (x : Db). purged_of (one_of ids) after x) only
          ∙ ap
              (λ l. record s.db {
                objects = l;
                outbox = after.outbox;
                next_outbox = after.next_outbox;
              })
              (delete-delete (has_object_id i) (one_of ids) s.db.objects)),
    )

none_selected :
    (p : ObjectRecord → Bool) (x : ObjectRecord) (l : List ObjectRecord)
    → any (clashes x) l ≡ false
    → any (nat_beq x.id) (map (λ (o : ObjectRecord). o.id) (select p l)) ≡ false
unfolding any select
none_selected p x [] h = refl
none_selected p x (y ∷ l) h = ground (arith, none_selected p x l)

Distinct-selected :
    (p : ObjectRecord → Bool) (l : List ObjectRecord)
    → UniqueRows l
    → Distinct (map (λ (o : ObjectRecord). o.id) (select p l))
unfolding UniqueRows select
Distinct-selected p [] u = tt
Distinct-selected p (x ∷ l) u = elim (Bool-cases (p x)) [
  | inl e ↦ rw e (none_selected p x l u.0, Distinct-selected p l u.1)
  | inr e ↦ rw e (Distinct-selected p l u.1)
]

Stored-weaker :
    (x : ObjectRecord) (l : List ObjectRecord) (ids : List ℕ) → Stored l ids → Stored (x ∷ l) ids
unfolding any
Stored-weaker x l [] k = tt
Stored-weaker x l (i ∷ ids) k = (ground (arith, k.0), Stored-weaker x l ids k.1)

Stored-selected :
    (p : ObjectRecord → Bool) (l : List ObjectRecord)
    → Stored l (map (λ (o : ObjectRecord). o.id) (select p l))
unfolding any select
Stored-selected p [] = tt
Stored-selected p (x ∷ l) = elim (Bool-cases (p x)) [
  | inl e ↦ rw e (ground (arith, nat_beq_refl x.id), Stored-weaker x l _ (Stored-selected p l))
  | inr e ↦ rw e (Stored-weaker x l _ (Stored-selected p l))
]

-- All the objects of a bucket are purged, and no others.
purge_objects-bucket :
    (now : ℕ) (node_id : Text) (id : ℕ) (s : Store)
    → IsValid s.db
    → (let r = purge_objects now node_id (list_object_ids_in_bucket id s.db) s in
        (r.0 ≡ ok tt) × (r.1.db ≡ purged_of (in_bucket id) r.1.db s.db))
unfolding list_object_ids_in_bucket IsValid
purge_objects-bucket now node_id id s v =
    let l = s.db.objects in
    let ids = map (λ (o : ObjectRecord). o.id) (select (in_bucket id) l) in
    let (a, b) =
      purge_objects-all now node_id ids s (Distinct-selected (in_bucket id) l v.0)
        (Stored-selected (in_bucket id) l) in
    let after = (purge_objects now node_id ids s).1.db in
    (
      a,
      b
          ∙ ap
              (λ k. record s.db {
                objects = k;
                outbox = after.outbox;
                next_outbox = after.next_outbox;
              })
              (delete-cong (one_of ids) (λ x. false || any (same_id x) (select (in_bucket id) l)) l
                  (λ x.
                    any-map (λ (o : ObjectRecord). o.id) (nat_beq x.id) (select (in_bucket id) l)
                    ∙ any-cong (λ (o : ObjectRecord). nat_beq x.id o.id) (same_id x)
                        (select (in_bucket id) l) (λ o. ground arith))
                ∙ delete-selected (λ _. false) (in_bucket id) l v.0 (any-never l)),
    )

none_left : (p : ObjectRecord → Bool) (l : List ObjectRecord) → any p (delete p l) ≡ false
unfolding any delete
none_left p [] = refl
none_left p (x ∷ l) = ground (arith, none_left p l)

abbrev pub without_bucket : ℕ → Db → Db
without_bucket id db = record db {
  buckets = delete (has_bucket_id id) db.buckets;
  permissions = delete (λ (p : RoleBucketPermission). nat_beq p.bucket_id id) db.permissions;
  assignments = delete (λ (a : BucketNodeAssignment). nat_beq a.bucket_id id) db.assignments;
}

-- The deletion of an empty bucket.
delete_bucket-empty :
    (id : ℕ) (b : BucketRecord) (db : Db)
    → get_bucket_by_id id db ≡ some b
    → text_beq b.name storage ≡ false
    → any (in_bucket id) db.objects ≡ false
    → delete_bucket id db ≡ (
        if any (share_in_bucket id) db.shares
        then (err foreign_key_violation, db)
        else (ok tt, without_bucket id db))
unfolding delete_bucket delete_bucket_row
delete_bucket-empty id b db f n e = rw (f, n) (rw (e, e) refl)

module _ (now : ℕ) (node_id : Text) (auth id : ℕ) (b : BucketRecord) (s : Store) (v : IsValid s.db)
    (found : get_bucket_by_id id s.db ≡ some b) (owns : account_owns_bucket auth id s.db ≡ true)
    (other : text_beq b.name storage ≡ false) where
  abbrev purged : Store
  purged = (purge_objects now node_id (list_object_ids_in_bucket id s.db) s).1

  -- After the checks and the loop, the bucket itself is deleted.
  handled :
      delete_bucket_by now node_id auth id s
      ≡ (on_db (attempt undeleted_bucket (delete_bucket id)) >> answer_with no_content) purged
  unfolding delete_bucket_by
  handled = rw (owns, found, other, (purge_objects-bucket now node_id id s v).0) refl

  still_found : get_bucket_by_id id purged.db ≡ some b
  unfolding get_bucket_by_id
  still_found =
      ap (λ (x : Db). first (has_bucket_id id) x.buckets)
        (purge_objects-bucket now node_id id s v).1
      ∙ found

  no_objects : any (in_bucket id) purged.db.objects ≡ false
  no_objects =
      ap (λ (x : Db). any (in_bucket id) x.objects) (purge_objects-bucket now node_id id s v).1
      ∙ none_left (in_bucket id) s.db.objects

  same_shares :
      (flag : Bool)
      → any (share_in_bucket id) s.db.shares ≡ flag
      → any (share_in_bucket id) purged.db.shares ≡ flag
  same_shares flag h =
      ap (λ (x : Db). any (share_in_bucket id) x.shares) (purge_objects-bucket now node_id id s v).1
      ∙ h

  ended :
      (flag : Bool)
      → any (share_in_bucket id) s.db.shares ≡ flag
      → delete_bucket id purged.db ≡ (
          if flag
          then (err foreign_key_violation, purged.db)
          else (ok tt, without_bucket id purged.db))
  ended flag h =
      delete_bucket-empty id b purged.db still_found other no_objects
      ∙ ap
          (λ f.
            if f
            then (err foreign_key_violation, purged.db)
            else (ok tt, without_bucket id purged.db))
          (same_shares flag h)

  -- The owner of a bucket other than `storage` that no share link is for deletes it, if the
  -- constraints of the table `object` hold: the answer is 204, and of the database exactly the row of
  -- the bucket, its objects, its permissions and its node assignments are gone, and nothing else but
  -- the outbox is changed.
  pub delete_bucket_by-deleted :
      any (share_in_bucket id) s.db.shares ≡ false
      → (let r = delete_bucket_by now node_id auth id s in
          (r.0 ≡ served (no_content, tt))
          × (r.1.db ≡ without_bucket id (purged_of (in_bucket id) r.1.db s.db)))
  delete_bucket_by-deleted h =
      let result = ended false h in
      (
        ap (λ x. x.0) handled ∙ rw result refl,
        rw handled (
            rw result
              (ap (λ (x : Db). without_bucket id x) (purge_objects-bucket now node_id id s v).1)),
      )

  -- If there is a share link, revoked or not, for a bucket other than `storage`, and the constraints
  -- of the table `object` hold, the request of its owner to delete it fails with 500, and of the
  -- database exactly the objects of the bucket, in the recycle bin or not, are gone, and nothing else
  -- but the outbox is changed: the bucket stays.
  pub delete_bucket_by-shared :
      any (share_in_bucket id) s.db.shares ≡ true
      → (let r = delete_bucket_by now node_id auth id s in
          (r.0 ≡ refused internal_server_error) × (r.1.db ≡ purged_of (in_bucket id) r.1.db s.db))
  unfolding message contains starts_with
  delete_bucket_by-shared h =
      let result = ended true h in
      (
        ap (λ x. x.0) handled ∙ rw result refl,
        rw handled (rw result (purge_objects-bucket now node_id id s v).1),
      )
