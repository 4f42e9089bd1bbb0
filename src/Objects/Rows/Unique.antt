-- ===== src/Objects/Rows/Unique.antt =====
-- src/db/repository.rs with migrations/0003_settings_rbac.sql: no two rows of `object` have the same
-- id, the same path, or the same key in the same bucket while both are active.
use my_s.Common.{
  Bool, Bool-cases, List, Text, [], any, any-append, arith, false, inl, inr, ltb, refl, text_beq,
  true, ℕ, ◌&&◌, ◌++◌, ◌+◌, ◌||◌, ◌∷◌, ◌≡◌,
}
use my_s.Database.{Db}
use my_s.Models.{ObjectRecord}
use my_s.Objects.Rows.{has_active_key, has_filepath, has_object_id, insert_row, is_active}

pub text_beq_sym : (s t : Text) → text_beq s t ≡ text_beq t s
unfolding text_beq
text_beq_sym [] [] = refl
text_beq_sym [] (d ∷ t) = refl
text_beq_sym (c ∷ s) [] = refl
text_beq_sym (c ∷ s) (d ∷ t) = ground (arith, text_beq_sym s t)

abbrev pub clashes : ObjectRecord → ObjectRecord → Bool
clashes o p =
    has_object_id o.id p
    || has_filepath o.filepath p
    || (is_active o && has_active_key o.bucket_id o.original_filename p)

unfoldable pub UniqueRows : List ObjectRecord → Type 0
UniqueRows [] = Unit
UniqueRows (o ∷ os) = (any (clashes o) os ≡ false) × UniqueRows os

unfoldable pub BelowNext : ℕ → List ObjectRecord → Type 0
BelowNext n [] = Unit
BelowNext n (o ∷ os) = (ltb o.id n ≡ true) × BelowNext n os

-- The constraints hold, and the next id is new.
unfoldable pub IsValid : Db → Type 0
IsValid db = UniqueRows db.objects × BelowNext db.next_object db.objects

pub clashes_sym : (o p : ObjectRecord) → clashes o p ≡ clashes p o
clashes_sym o p = ground (
  arith,
  text_beq_sym o.filepath p.filepath,
  text_beq_sym o.original_filename p.original_filename,
)

UniqueRows-append :
    (x : ObjectRecord) (l : List ObjectRecord)
    → UniqueRows l
    → any (clashes x) l ≡ false
    → UniqueRows (l ++ x ∷ [])
unfolding UniqueRows any
UniqueRows-append x [] u h = (refl, tt)
UniqueRows-append x (o ∷ l) u h =
    ground (arith, clashes_sym o x, any-append (clashes o) l (x ∷ []), UniqueRows-append x l)

BelowNext-append :
    (n : ℕ) (x : ObjectRecord) (l : List ObjectRecord)
    → BelowNext n l
    → x.id ≡ n
    → BelowNext (n + 1) (l ++ x ∷ [])
unfolding BelowNext
BelowNext-append n x [] b h = (ground arith, tt)
BelowNext-append n x (o ∷ l) b h = (ground arith, BelowNext-append n x l b.1 h)

-- A row with the next id clashes with no row unless by path or by active key.
fresh :
    (n : ℕ) (x : ObjectRecord) (l : List ObjectRecord)
    → BelowNext n l
    → x.id ≡ n
    → any (has_filepath x.filepath) l ≡ false
    → (is_active x && any (has_active_key x.bucket_id x.original_filename) l) ≡ false
    → any (clashes x) l ≡ false
unfolding BelowNext any
fresh n x [] b h k j = refl
fresh n x (o ∷ l) b h k j = ground (arith, fresh n x l b.1 h)

pub insert_row-IsValid :
    (x : ObjectRecord) (db : Db) → x.id ≡ db.next_object → IsValid db → IsValid (insert_row x db).1
unfolding IsValid
insert_row-IsValid x db h v =
    elim (Bool-cases (
      any (has_filepath x.filepath) db.objects
      || (is_active x && any (has_active_key x.bucket_id x.original_filename) db.objects))) [
        | inl e ↦ ground arith
        | inr e ↦ ground (
          arith,
          UniqueRows-append x db.objects,
          BelowNext-append db.next_object x db.objects,
          fresh db.next_object x db.objects,
        )
      ]
