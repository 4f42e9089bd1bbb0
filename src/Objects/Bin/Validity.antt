-- ===== src/Objects/Bin/Validity.antt =====
-- src/db/repository.rs: moving a row to the recycle bin and back keeps the constraints.
use my_s.Common.{
  Bool, Bool-cases, List, Option, Option-cases, Text, [], any, arith, false, first, first-holds,
  inl, inr, refl, some, update, ℕ, ◌∷◌, ◌≡◌,
}
use my_s.Database.{Db}
use my_s.Models.{ObjectRecord}
use my_s.Objects.Bin.{
  conflicts, from_bin, matches_bucket, restore_object, soft_delete_object_by_filename, to_bin,
}
use my_s.Objects.Rows.{get_object_by_id, has_object_id}
use my_s.Objects.Rows.Unique.{BelowNext, IsValid, UniqueRows, clashes, text_beq_sym}

any-clashes-to_bin :
    (now : ℕ) (p : ObjectRecord → Bool) (o : ObjectRecord) (l : List ObjectRecord)
    → any (clashes o) l ≡ false
    → any (clashes o) (update p (to_bin now) l) ≡ false
unfolding any update
any-clashes-to_bin now p o [] h = refl
any-clashes-to_bin now p o (x ∷ l) h = ground (arith, any-clashes-to_bin now p o l)

any-to_bin-clashes :
    (now : ℕ) (o : ObjectRecord) (l : List ObjectRecord)
    → any (clashes o) l ≡ false
    → any (clashes (to_bin now o)) l ≡ false
unfolding any
any-to_bin-clashes now o [] h = refl
any-to_bin-clashes now o (x ∷ l) h = ground (arith, any-to_bin-clashes now o l)

UniqueRows-to_bin :
    (now : ℕ) (p : ObjectRecord → Bool) (l : List ObjectRecord)
    → UniqueRows l
    → UniqueRows (update p (to_bin now) l)
unfolding UniqueRows update
UniqueRows-to_bin now p [] u = tt
UniqueRows-to_bin now p (x ∷ l) u = ground (
  arith,
  any-to_bin-clashes now x (update p (to_bin now) l),
  any-clashes-to_bin now p x l,
  UniqueRows-to_bin now p l,
)

BelowNext-to_bin :
    (now n : ℕ) (p : ObjectRecord → Bool) (l : List ObjectRecord)
    → BelowNext n l
    → BelowNext n (update p (to_bin now) l)
unfolding BelowNext update
BelowNext-to_bin now n p [] b = tt
BelowNext-to_bin now n p (x ∷ l) b = ground (arith, BelowNext-to_bin now n p l)

BelowNext-from_bin :
    (now n : ℕ) (p : ObjectRecord → Bool) (l : List ObjectRecord)
    → BelowNext n l
    → BelowNext n (update p (from_bin now) l)
unfolding BelowNext update
BelowNext-from_bin now n p [] b = tt
BelowNext-from_bin now n p (x ∷ l) b = ground (arith, BelowNext-from_bin now n p l)

-- No row of a list has the id of another.
pub untouched :
    (f : ObjectRecord → ObjectRecord) (x : ObjectRecord) (l : List ObjectRecord)
    → any (clashes x) l ≡ false
    → update (has_object_id x.id) f l ≡ l
unfolding any update
untouched f x [] h = refl
untouched f x (y ∷ l) h = ground (arith, untouched f x l)

any-clashes-from_bin :
    (now : ℕ) (r x : ObjectRecord) (l : List ObjectRecord)
    → any (clashes x) l ≡ false
    → UniqueRows l
    → first (has_object_id r.id) l ≡ some r
    → conflicts r x ≡ false
    → any (clashes x) (update (has_object_id r.id) (from_bin now) l) ≡ false
unfolding any update first UniqueRows
any-clashes-from_bin now r x [] h u f c = refl
any-clashes-from_bin now r x (y ∷ l) h u f c = elim (Bool-cases (has_object_id r.id y)) [
  | inl e ↦
      ground
        (arith, untouched (from_bin now) y l, text_beq_sym x.original_filename r.original_filename)
  | inr e ↦ ground (arith, any-clashes-from_bin now r x l)
]

any-from_bin-clashes :
    (now : ℕ) (r : ObjectRecord) (l : List ObjectRecord)
    → any (clashes r) l ≡ false
    → any (conflicts r) l ≡ false
    → any (clashes (from_bin now r)) l ≡ false
unfolding any
any-from_bin-clashes now r [] h c = refl
any-from_bin-clashes now r (y ∷ l) h c = ground (arith, any-from_bin-clashes now r l)

UniqueRows-from_bin :
    (now : ℕ) (r : ObjectRecord) (l : List ObjectRecord)
    → UniqueRows l
    → first (has_object_id r.id) l ≡ some r
    → any (conflicts r) l ≡ false
    → UniqueRows (update (has_object_id r.id) (from_bin now) l)
unfolding any update first UniqueRows
UniqueRows-from_bin now r [] u f c = tt
UniqueRows-from_bin now r (y ∷ l) u f c = elim (Bool-cases (has_object_id r.id y)) [
  | inl e ↦ ground (arith, untouched (from_bin now) y l, any-from_bin-clashes now y l)
  | inr e ↦ ground (arith, any-clashes-from_bin now r y l, UniqueRows-from_bin now r l)
]

-- A soft delete by `soft_delete_object_by_filename` keeps the constraints of the table and the next
-- id new.
pub soft_delete_object_by_filename-IsValid :
    (now : ℕ) (filename : Text) (bucket_id : Option ℕ) (db : Db)
    → IsValid db
    → IsValid (soft_delete_object_by_filename now filename bucket_id db).1
unfolding IsValid soft_delete_object_by_filename
soft_delete_object_by_filename-IsValid now filename bucket_id db v =
    elim (Option-cases (first (matches_bucket bucket_id filename) db.objects)) [
      | inl e ↦ ground arith
      | inr (r, e) ↦ ground (
        arith,
        UniqueRows-to_bin now (has_object_id r.id) db.objects,
        BelowNext-to_bin now db.next_object (has_object_id r.id) db.objects,
      )
    ]

-- `restore_object` keeps the constraints of the table and the next id new, whether it succeeds or
-- fails.
pub restore_object-IsValid :
    (now id : ℕ) (db : Db) → IsValid db → IsValid (restore_object now id db).1
unfolding IsValid restore_object get_object_by_id
restore_object-IsValid now id db v = elim (Option-cases (first (has_object_id id) db.objects)) [
  | inl e ↦ ground arith
  | inr (r, e) ↦ ground (
    arith,
    first-holds (has_object_id id) db.objects r,
    UniqueRows-from_bin now r db.objects,
    BelowNext-from_bin now db.next_object (has_object_id r.id) db.objects,
  )
]
