-- ===== src/Objects/Folders/Renames.antt =====
-- src/db/repository.rs: renaming a folder keeps the constraints, and fails as a whole.
use my_s.Common.{
  Bool, Bool-cases, List, Option-cases, Text, [], any, arith, false, first, first-holds, inl, inr,
  nat_beq, none, not, refl, some, update, ℕ, ◌&&◌, ◌∷◌, ◌≡◌,
}
use my_s.Database.{Db, Result-cases, transaction}
use my_s.Models.{ObjectRecord}
use my_s.Objects.Folders.{
  apply_renames, commit_renames, list_keys_under_prefix, plan_renames, rename_prefix, rename_row,
  set_key,
}
use my_s.Objects.Rows.{has_active_key, has_object_id, is_active}
use my_s.Objects.Rows.Unique.{BelowNext, IsValid, UniqueRows, clashes, text_beq_sym}

abbrev is_target : ℕ → ObjectRecord → Bool
is_target id o = has_object_id id o && is_active o

untouched_targets :
    (f : ObjectRecord → ObjectRecord) (x : ObjectRecord) (l : List ObjectRecord)
    → any (clashes x) l ≡ false
    → update (is_target x.id) f l ≡ l
unfolding any update
untouched_targets f x [] h = refl
untouched_targets f x (y ∷ l) h = ground (arith, untouched_targets f x l)

any-clashes-rename :
    (now : ℕ) (k : Text) (r x : ObjectRecord) (l : List ObjectRecord)
    → any (clashes x) l ≡ false
    → UniqueRows l
    → first (is_target r.id) l ≡ some r
    → (has_active_key r.bucket_id k x && not (nat_beq x.id r.id)) ≡ false
    → any (clashes x) (update (is_target r.id) (rename_row now k) l) ≡ false
unfolding any update first UniqueRows
any-clashes-rename now k r x [] h u f c = refl
any-clashes-rename now k r x (y ∷ l) h u f c = elim (Bool-cases (is_target r.id y)) [
  | inl e ↦
      ground (arith, untouched_targets (rename_row now k) y l, text_beq_sym x.original_filename k)
  | inr e ↦ ground (arith, any-clashes-rename now k r x l)
]

any-rename-clashes :
    (now : ℕ) (k : Text) (r : ObjectRecord) (l : List ObjectRecord)
    → any (clashes r) l ≡ false
    → any (λ (o : ObjectRecord). has_active_key r.bucket_id k o && not (nat_beq o.id r.id)) l
      ≡ false
    → any (clashes (rename_row now k r)) l ≡ false
unfolding any
any-rename-clashes now k r [] h c = refl
any-rename-clashes now k r (y ∷ l) h c = ground (arith, any-rename-clashes now k r l)

UniqueRows-rename :
    (now : ℕ) (k : Text) (r : ObjectRecord) (l : List ObjectRecord)
    → UniqueRows l
    → first (is_target r.id) l ≡ some r
    → any (λ (o : ObjectRecord). has_active_key r.bucket_id k o && not (nat_beq o.id r.id)) l
      ≡ false
    → UniqueRows (update (is_target r.id) (rename_row now k) l)
unfolding any update first UniqueRows
UniqueRows-rename now k r [] u f c = tt
UniqueRows-rename now k r (y ∷ l) u f c = elim (Bool-cases (is_target r.id y)) [
  | inl e ↦ ground (arith, untouched_targets (rename_row now k) y l, any-rename-clashes now k y l)
  | inr e ↦ ground (arith, any-clashes-rename now k r y l, UniqueRows-rename now k r l)
]

no_target :
    (id : ℕ) (f : ObjectRecord → ObjectRecord) (l : List ObjectRecord)
    → first (is_target id) l ≡ none
    → update (is_target id) f l ≡ l
unfolding first update
no_target id f [] h = refl
no_target id f (y ∷ l) h = ground (arith, no_target id f l)

BelowNext-rename :
    (now n : ℕ) (k : Text) (p : ObjectRecord → Bool) (l : List ObjectRecord)
    → BelowNext n l
    → BelowNext n (update p (rename_row now k) l)
unfolding BelowNext update
BelowNext-rename now n k p [] b = tt
BelowNext-rename now n k p (x ∷ l) b = ground (arith, BelowNext-rename now n k p l)

set_key-IsValid : (now id : ℕ) (k : Text) (db : Db) → IsValid db → IsValid (set_key now id k db).1
unfolding IsValid
set_key-IsValid now id k db v = elim (Option-cases (first (is_target id) db.objects)) [
  | inl e ↦ ground (arith, no_target id (rename_row now k) db.objects)
  | inr (r, e) ↦ ground (
    arith,
    first-holds (is_target id) db.objects r,
    UniqueRows-rename now k r db.objects,
    BelowNext-rename now db.next_object k (is_target id) db.objects,
  )
]

apply_renames-IsValid :
    (now : ℕ) (renames : List (ℕ × Text)) (db : Db)
    → IsValid db
    → IsValid (apply_renames now renames db).1
unfolding apply_renames
apply_renames-IsValid now [] db v = v
apply_renames-IsValid now ((id, k) ∷ renames) db v =
    ground (
      arith,
      set_key-IsValid now id k db,
      apply_renames-IsValid now renames (set_key now id k db).1,
    )

-- `rename_prefix` keeps the constraints of the table and the next id new, whether it succeeds or
-- fails.
pub rename_prefix-IsValid :
    (now b : ℕ) (from_prefix to_prefix : Text) (db : Db)
    → IsValid db
    → IsValid (rename_prefix now b from_prefix to_prefix db).1
unfolding rename_prefix commit_renames transaction
rename_prefix-IsValid now b from_prefix to_prefix db v =
    elim (Result-cases
      (plan_renames b from_prefix to_prefix (list_keys_under_prefix b from_prefix db) db)) [
        | inl (renames, e) ↦ ground (arith, apply_renames-IsValid now renames db)
        | inr (e, h) ↦ ground arith
      ]
