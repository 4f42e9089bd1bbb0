-- ===== src/Objects/Bin/Lookup.antt =====
-- src/db/repository.rs: what lookups find after a soft delete and after a restore.
use my_s.Common.{
  Bool, Bool-cases, List, Option-cases, Text, [], any, arith, false, first, first-any, first-holds,
  if◌then◌else◌, inl, inr, nat_beq, none, not, refl, some, text_beq, text_beq_iff, true, update, ℕ,
  ◌&&◌, ◌∷◌, ◌≡◌,
}
use my_s.Database.{Db, ok}
use my_s.Models.{ObjectRecord}
use my_s.Objects.Bin.{from_bin, restore_object, soft_delete_object_by_filename, to_bin}
use my_s.Objects.Bin.Validity.{untouched}
use my_s.Objects.Rows.{
  get_object_by_filename_in_bucket, get_object_by_id, has_active_key, has_object_id, is_active,
}
use my_s.Objects.Rows.Unique.{IsValid, UniqueRows, clashes, text_beq_sym}

no_other :
    (x : ObjectRecord) (b : ℕ) (key : Text) (l : List ObjectRecord)
    → has_active_key b key x ≡ true
    → any (clashes x) l ≡ false
    → any (has_active_key b key) l ≡ false
unfolding any
no_other x b key [] h k = refl
no_other x b key (y ∷ l) h k = ground (
  arith,
  text_beq_iff x.original_filename key,
  text_beq_sym x.original_filename key,
  no_other x b key l,
)

gone :
    (now : ℕ) (r : ObjectRecord) (b : ℕ) (key : Text) (l : List ObjectRecord)
    → UniqueRows l
    → first (has_active_key b key) l ≡ some r
    → any (has_active_key b key) (update (has_object_id r.id) (to_bin now) l) ≡ false
unfolding any update first UniqueRows
gone now r b key [] u f = refl
gone now r b key (y ∷ l) u f = elim (Bool-cases (has_active_key b key y)) [
  | inl e ↦ ground (arith, untouched (to_bin now) y l, no_other y b key l)
  | inr e ↦ ground (arith, gone now r b key l)
]

other_id :
    (y r : ObjectRecord) (p : ObjectRecord → Bool) (l : List ObjectRecord)
    → any (clashes y) l ≡ false
    → first p l ≡ some r
    → has_object_id r.id y ≡ false
unfolding any first
other_id y r p [] h f = ground arith
other_id y r p (x ∷ l) h f = ground (arith, other_id y r p l)

kept :
    (now : ℕ) (r : ObjectRecord) (b b' : ℕ) (key key' : Text) (l : List ObjectRecord)
    → UniqueRows l
    → (nat_beq b b' && text_beq key key') ≡ false
    → first (has_active_key b key) l ≡ some r
    → first (has_active_key b' key') (update (has_object_id r.id) (to_bin now) l)
      ≡ first (has_active_key b' key') l
unfolding any update first UniqueRows
kept now r b b' key key' [] u e f = refl
kept now r b b' key key' (y ∷ l) u e f = elim (Bool-cases (has_active_key b key y)) [
  | inl k ↦ ground (arith, untouched (to_bin now) y l, text_beq_iff y.original_filename key)
  | inr k ↦ ground (arith, other_id y r (has_active_key b key) l, kept now r b b' key key' l)
]

same_result :
    (key key' : Text) (b b' : ℕ) (l : List ObjectRecord)
    → (nat_beq b b' && text_beq key key') ≡ true
    → any (has_active_key b key) l ≡ false
    → first (has_active_key b' key') l ≡ none
unfolding any first
same_result key key' b b' [] e h = refl
same_result key key' b b' (x ∷ l) e h =
    ground (arith, text_beq_iff key key', same_result key key' b b' l)

-- If the constraints hold, a soft delete of a key in a bucket makes that key of that bucket be found
-- no more, and leaves what a lookup of any other key or bucket finds.
pub get_object_by_filename_in_bucket-soft_delete :
    (now : ℕ) (key : Text) (b : ℕ) (db : Db)
    → IsValid db
    → (key' : Text) (b' : ℕ)
    → get_object_by_filename_in_bucket key' b'
        (soft_delete_object_by_filename now key (some b) db).1
      ≡ (if nat_beq b b' && text_beq key key'
          then none
          else get_object_by_filename_in_bucket key' b' db)
unfolding get_object_by_filename_in_bucket soft_delete_object_by_filename IsValid
get_object_by_filename_in_bucket-soft_delete now key b db v key' b' =
    elim (Option-cases (first (has_active_key b key) db.objects)) [
      | inl e ↦
          ground (
            arith,
            first-any (has_active_key b key) db.objects,
            same_result key key' b b' db.objects,
          )
      | inr (r, e) ↦ ground (
        arith,
        gone now r b key db.objects,
        kept now r b b' key key' db.objects,
        same_result key key' b b' (update (has_object_id r.id) (to_bin now) db.objects),
      )
    ]

found_binned :
    (now : ℕ) (r : ObjectRecord) (p : ObjectRecord → Bool) (l : List ObjectRecord)
    → UniqueRows l
    → first p l ≡ some r
    → first (has_object_id r.id) (update (has_object_id r.id) (to_bin now) l) ≡ some (to_bin now r)
unfolding update first UniqueRows
found_binned now r p [] u f = ground arith
found_binned now r p (y ∷ l) u f = elim (Bool-cases (p y)) [
  | inl k ↦ ground arith
  | inr k ↦ ground (arith, other_id y r p l, found_binned now r p l)
]

found_restored :
    (now : ℕ) (r : ObjectRecord) (l : List ObjectRecord)
    → first (has_object_id r.id) l ≡ some r
    → first (has_object_id r.id) (update (has_object_id r.id) (from_bin now) l)
      ≡ some (from_bin now r)
unfolding update first
found_restored now r [] f = ground arith
found_restored now r (y ∷ l) f = ground (arith, found_restored now r l)

no_conflict :
    (b : ℕ) (key : Text) (id : ℕ) (l : List ObjectRecord)
    → any (has_active_key b key) l ≡ false
    → any (λ o. has_active_key b key o && not (nat_beq o.id id)) l ≡ false
unfolding any
no_conflict b key id [] h = refl
no_conflict b key id (x ∷ l) h = ground (arith, no_conflict b key id l)

restored :
    (later : ℕ) (x : ObjectRecord) (db : Db)
    → first (has_object_id x.id) db.objects ≡ some x
    → is_active x ≡ false
    → any (has_active_key x.bucket_id x.original_filename) db.objects ≡ false
    → (restore_object later x.id db).0 ≡ ok (from_bin later x)
unfolding restore_object get_object_by_id
restored later x db f a k = ground (
  arith,
  no_conflict x.bucket_id x.original_filename x.id db.objects,
  found_restored later x db.objects,
)

-- If the constraints hold and a key of a bucket is found, then after its soft delete the restore of
-- the object's id succeeds, and gives the object with the time of the restore as its modification
-- time.
pub restore_object-soft_delete :
    (now later : ℕ) (key : Text) (b : ℕ) (db : Db) (r : ObjectRecord)
    → IsValid db
    → get_object_by_filename_in_bucket key b db ≡ some r
    → (restore_object later r.id (soft_delete_object_by_filename now key (some b) db).1).0
      ≡ ok (from_bin later r)
unfolding IsValid get_object_by_filename_in_bucket soft_delete_object_by_filename
restore_object-soft_delete now later key b db r v h = ground (
  arith,
  gone now r b key db.objects,
  found_binned now r (has_active_key b key) db.objects,
  first-holds (has_active_key b key) db.objects r,
  text_beq_iff r.original_filename key,
  restored later (to_bin now r)
      (record db { objects = update (has_object_id r.id) (to_bin now) db.objects }),
)
