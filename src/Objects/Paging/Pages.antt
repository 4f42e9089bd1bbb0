-- ===== src/Objects/Paging/Pages.antt =====
-- src/db/repository.rs: pages of a listing.
use my_s.Common.{
  List, Text, [], arith, drop, inl, inr, length, ltb, map, min, refl, suc, take, to_nat, zero, ℕ, ℤ,
  ◌++◌, ◌+◌, ◌-◌, ◌∷◌, ◌≡◌, ◌≤◌, ◌⊎◌,
}
use my_s.Models.{ObjectRecord}
use my_s.Objects.Folders.{FolderEntry}
use my_s.Objects.Paging.{
  page_end, page_folder_object_lists, page_folders, page_limit, page_objects, usize_max,
}

module _ {ℓ} {A : Type ℓ} where
  length-take : (n : ℕ) (xs : List A) → length (take n xs) ≡ min n (length xs)
  length-take zero xs = ground arith
  length-take (suc n) [] = ground arith
  length-take (suc n) (x ∷ xs) = ground (arith, length-take n xs)

  length-drop : (n : ℕ) (xs : List A) → length (drop n xs) ≡ length xs - n
  length-drop zero xs = ground arith
  length-drop (suc n) [] = ground arith
  length-drop (suc n) (x ∷ xs) = ground (arith, length-drop n xs)

  drop-all : (n : ℕ) (xs : List A) → length xs ≤ n → drop n xs ≡ []
  drop-all zero [] h = refl
  drop-all zero (x ∷ xs) h = ground arith
  drop-all (suc n) [] h = refl
  drop-all (suc n) (x ∷ xs) h = drop-all n xs (omega arith)

  take-nil : (n : ℕ) → take {A = A} n [] ≡ []
  take-nil zero = refl
  take-nil (suc n) = refl

  take-enough :
      (m n : ℕ) (xs : List A) → min m (length xs) ≡ min n (length xs) → take m xs ≡ take n xs
  take-enough zero zero xs h = refl
  take-enough zero (suc n) [] h = refl
  take-enough zero (suc n) (x ∷ xs) h = ground arith
  take-enough (suc m) zero [] h = refl
  take-enough (suc m) zero (x ∷ xs) h = ground arith
  take-enough (suc m) (suc n) [] h = refl
  take-enough (suc m) (suc n) (x ∷ xs) h = ground (arith, take-enough m n xs)

-- The listing as one sequence.
abbrev pub entries : List FolderEntry → List ObjectRecord → List (FolderEntry ⊎ ObjectRecord)
entries folders objects = map inl folders ++ map inr objects

module _ {A B : Type 0} where
  map-take : (f : A → B) (n : ℕ) (xs : List A) → map f (take n xs) ≡ take n (map f xs)
  map-take f zero xs = refl
  map-take f (suc n) [] = refl
  map-take f (suc n) (x ∷ xs) = ground (arith, map-take f n xs)

  map-drop : (f : A → B) (n : ℕ) (xs : List A) → map f (drop n xs) ≡ drop n (map f xs)
  map-drop f zero xs = refl
  map-drop f (suc n) [] = refl
  map-drop f (suc n) (x ∷ xs) = ground (arith, map-drop f n xs)

entries-window :
    (n s : ℕ) (fs : List FolderEntry) (os : List ObjectRecord)
    → entries (take n (drop s fs)) (take (n - (length fs - s)) (drop (s - length fs) os))
      ≡ take n (drop s (entries fs os))
entries-window n s [] os = ground (
  arith,
  drop-all {A = FolderEntry} s [],
  take-nil {A = FolderEntry} n,
  map-drop {A = ObjectRecord} {B = FolderEntry ⊎ ObjectRecord} inr s os,
  map-take {A = ObjectRecord} {B = FolderEntry ⊎ ObjectRecord} inr n (drop s os),
)
entries-window zero zero (f ∷ fs) os = ground arith
entries-window (suc n) zero (f ∷ fs) os = ground (arith, entries-window n zero fs os)
entries-window n (suc s) (f ∷ fs) os = ground (arith, entries-window n s fs os)

page_folders-window :
    (n s e : ℕ) (fs : List FolderEntry)
    → e ≡ min (s + n) usize_max
    → length fs ≤ usize_max
    → page_folders fs s e ≡ take n (drop s fs)
page_folders-window n s e fs h k = ground (
  arith,
  drop-all s fs,
  length-drop s fs,
  take-nil {A = FolderEntry} n,
  take-enough (min e (length fs) - s) n (drop s fs),
)

page_objects-window :
    (n s e flen : ℕ) (os : List ObjectRecord)
    → e ≡ min (s + n) usize_max
    → flen + length os ≤ usize_max
    → page_objects flen os s e ≡ take (n - (flen - s)) (drop (s - flen) os)
page_objects-window n s e flen os h k = ground (
  arith,
  drop-all (s - flen) os,
  length-drop (s - flen) os,
  take-nil {A = ObjectRecord} (n - (flen - s)),
  take-enough 0 (n - (flen - s)) (drop (s - flen) os),
  take-enough (min (e - flen) (length os) - (s - flen)) (n - (flen - s)) (drop (s - flen) os),
)

-- If the listing has at most `usize_max` entries, the folders and then the objects of a page are
-- the `limit` entries from `offset` on of the folders and then the objects of the listing; a
-- negative offset counts as 0, a limit that is not positive as no limit.
pub page_folder_object_lists-window :
    (folders : List FolderEntry) (objects : List ObjectRecord) (prefix delimiter : Text)
    (offset limit : ℤ)
    → length folders + length objects ≤ usize_max
    → (let r = page_folder_object_lists folders objects prefix delimiter offset limit in
        entries r.folders r.objects)
      ≡ take (page_limit limit) (drop (to_nat offset) (entries folders objects))
unfolding page_folder_object_lists
page_folder_object_lists-window folders objects prefix delimiter offset limit h = ground (
  arith,
  page_folders-window (page_limit limit) (to_nat offset) (page_end offset limit) folders,
  page_objects-window (page_limit limit) (to_nat offset) (page_end offset limit) (length folders)
      objects,
  entries-window (page_limit limit) (to_nat offset) folders objects,
)

-- If the listing has at most `usize_max` entries, a page says that there are more exactly when it
-- ends before the last entry.
pub page_folder_object_lists-has_more :
    (folders : List FolderEntry) (objects : List ObjectRecord) (prefix delimiter : Text)
    (offset limit : ℤ)
    → length folders + length objects ≤ usize_max
    → (page_folder_object_lists folders objects prefix delimiter offset limit).has_more
      ≡ ltb (to_nat offset + page_limit limit) (length folders + length objects)
unfolding page_folder_object_lists
page_folder_object_lists-has_more folders objects prefix delimiter offset limit h = ground (
  arith,
  page_folders-window (page_limit limit) (to_nat offset) (page_end offset limit) folders,
  page_objects-window (page_limit limit) (to_nat offset) (page_end offset limit) (length folders)
      objects,
  length-take (page_limit limit) (drop (to_nat offset) folders),
  length-drop (to_nat offset) folders,
  length-take (page_limit limit - (length folders - to_nat offset))
      (drop (to_nat offset - length folders) objects),
  length-drop (to_nat offset - length folders) objects,
)
