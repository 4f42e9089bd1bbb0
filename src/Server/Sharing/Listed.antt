-- ===== src/Server/Sharing/Listed.antt =====
-- src/server/share_routes.rs: what the listing of a shared folder shows.
use my_s.Common.{
  Bool, Bool-cases, Bytes, List, Option, Option-cases, Text, [], any, any-order_by, any-select, ap,
  arith, codes, drop, false, inl, inr, length, map, to_nat, is_empty, min, none, not, pos, refl,
  select, some, starts_with, suc, take, true, zero, nat_beq, never_any, ℕ, ℤ, strip_prefix, ◌&&◌,
  ◌++◌, ◌-◌, ◌||◌, ◌∷◌, ◌∙◌, ◌≡◌, ◌⊎◌,
}
use my_s.Database.{Db, Result-cases}
use my_s.Keys.{normalize_folder_prefix}
use my_s.Models.{AccountRecord, ObjectRecord, ShareLinkRecord, is_file}
use my_s.Objects.Folders.{FolderEntry, name_leb}
use my_s.Objects.Listing.{
  classify, folder_entry_from_rows, is_here, level_objects, level_prefixes,
  list_objects_with_prefix, matching_rows,
}
use my_s.Objects.Paging.{PrefixListResult, page_end, page_folder_object_lists, page_objects, slice}
use my_s.Objects.Rows.{is_active}
use my_s.Server.Http.{Served-cases, StatusCode, served}
use my_s.Server.Sharing.Access.{
  absolute_prefix, authorize_share, is_shown, list_for_share, list_prefix, or_denied, retained,
}
use my_s.Shares.Scope.{ListDenied, key_in_share_scope, resolve_list_prefix}
use my_s.Sql.Like.{backslash, like, like_escape, percent}
use my_s.Shares.Scope.Confined.{resolve_list_prefix-confined, starts_with_refl, starts_with_trans}

any-take :
    (p : ObjectRecord → Bool) (n : ℕ) (l : List ObjectRecord)
    → any p l ≡ false
    → any p (take n l) ≡ false
unfolding any
any-take p zero l h = refl
any-take p (suc n) [] h = refl
any-take p (suc n) (x ∷ l) h = ground (arith, any-take p n l)

any-drop :
    (p : ObjectRecord → Bool) (n : ℕ) (l : List ObjectRecord)
    → any p l ≡ false
    → any p (drop n l) ≡ false
unfolding any
any-drop p zero l h = h
any-drop p (suc n) [] h = h
any-drop p (suc n) (x ∷ l) h = any-drop p n l (ground arith)

any-slice :
    (p : ObjectRecord → Bool) (i j : ℕ) (l : List ObjectRecord)
    → any p l ≡ false
    → any p (slice i j l) ≡ false
any-slice p i j l h = any-take p (j - i) (drop i l) (any-drop p i l h)

any-page_objects :
    (p : ObjectRecord → Bool) (n : ℕ) (l : List ObjectRecord) (offset stop : ℕ)
    → any p l ≡ false
    → any p (page_objects n l offset stop) ≡ false
unfolding any
any-page_objects p n l offset stop h =
    ground (arith, any-slice p (offset - n) (min (stop - n) (length l)) l h)

any-page :
    (p : ObjectRecord → Bool) (folders : List FolderEntry) (objects : List ObjectRecord)
    (prefix delimiter : Text) (offset limit : ℤ)
    → any p objects ≡ false
    → any p (page_folder_object_lists folders objects prefix delimiter offset limit).objects ≡ false
unfolding page_folder_object_lists
any-page p folders objects prefix delimiter offset limit h =
    any-page_objects p (length folders) objects (to_nat offset) (page_end offset limit) h

strip_prefix-starts : (p s t : Text) → strip_prefix p s ≡ some t → starts_with p s ≡ true
unfolding strip_prefix starts_with
strip_prefix-starts [] s t h = refl
strip_prefix-starts (c ∷ p) [] t h = cc
strip_prefix-starts (c ∷ p) (d ∷ s) t h = ground (arith, strip_prefix-starts p s t)

classify-here :
    (prefix delimiter key : Text)
    → is_here (classify prefix delimiter key) ≡ true
    → starts_with prefix key ≡ true
unfolding classify
classify-here prefix delimiter key h = elim (Option-cases (strip_prefix prefix key)) [
  | inl e ↦ absurd (ground (arith, e))
  | inr (rest, e) ↦ strip_prefix-starts prefix key rest e
]

-- An object that a share does not cover: out of its scope, of another bucket, or in the recycle bin.
abbrev pub is_outside : ShareLinkRecord → ObjectRecord → Bool
is_outside share o =
    not (key_in_share_scope share o.original_filename)
    || (not (nat_beq o.bucket_id share.bucket_id) || not (is_active o))

abbrev in_query : Text → ℕ → ObjectRecord → Bool
in_query pattern_text b o =
    is_active o && (nat_beq o.bucket_id b && like (some backslash) pattern_text o.original_filename)

abbrev at_level : Text → Text → ObjectRecord → Bool
at_level prefix delimiter o = is_here (classify prefix delimiter o.original_filename)

inside_one :
    (share : ShareLinkRecord) (prefix delimiter pattern_text : Text) (o : ObjectRecord)
    → is_file share.target_kind ≡ false
    → starts_with share.target_key prefix ≡ true
    → (in_query pattern_text share.bucket_id o
        && (at_level prefix delimiter o && is_outside share o))
      ≡ false
unfolding key_in_share_scope
inside_one share prefix delimiter pattern_text o k h =
    elim (Bool-cases (at_level prefix delimiter o)) [
      | inr e ↦ ground (arith, e)
      | inl e ↦
          let w =
            starts_with_trans share.target_key prefix o.original_filename h
              (classify-here prefix delimiter o.original_filename e) in
          ground (arith, e, w)
    ]

-- The objects of a level under a prefix in the scope of the share.
none_outside :
    (share : ShareLinkRecord) (prefix delimiter pattern_text : Text) (db : Db)
    → is_file share.target_kind ≡ false
    → starts_with share.target_key prefix ≡ true
    → any
        (is_outside share)
        (level_objects prefix delimiter (matching_rows pattern_text (some share.bucket_id) db))
      ≡ false
unfolding level_objects
none_outside share prefix delimiter pattern_text db k h =
    any-select (at_level prefix delimiter) (is_outside share)
      (matching_rows pattern_text (some share.bucket_id) db)
    ∙ any-order_by (λ o. at_level prefix delimiter o && is_outside share o) name_leb
        (select (in_query pattern_text share.bucket_id) db.objects)
    ∙ any-select (in_query pattern_text share.bucket_id)
        (λ o. at_level prefix delimiter o && is_outside share o) db.objects
    ∙ never_any
        (λ o.
          in_query pattern_text share.bucket_id o
          && (at_level prefix delimiter o && is_outside share o))
        db.objects (λ o. inside_one share prefix delimiter pattern_text o k h)

absolute_prefix-confined :
    (share : ShareLinkRecord) (prefix p : Text) (s s' : Db)
    → absolute_prefix share prefix s ≡ (served p, s')
    → (starts_with share.target_key p ≡ true) × (s' ≡ s)
absolute_prefix-confined share prefix p s s' h =
    elim (Result-cases (normalize_folder_prefix prefix)) [
      | inr (x, e) ↦ absurd (ground (arith, e))
      | inl (q, e) ↦ elim (Bool-cases (starts_with share.target_key q)) [
        | inr f ↦ absurd (ground (arith, e, f))
        | inl f ↦ (ground (arith, e, f), ground (arith, e, f))
      ]
    ]

relative_prefix-confined :
    (share : ShareLinkRecord) (prefix p : Text) (s s' : Db) (r : ListDenied ⊎ Text)
    → is_file share.target_kind ≡ false
    → resolve_list_prefix share (some prefix) ≡ r
    → or_denied r s ≡ (served p, s')
    → (starts_with share.target_key p ≡ true) × (s' ≡ s)
unfolding key_in_share_scope
relative_prefix-confined share prefix p s s' (inl x) k e h = absurd (ground arith)
relative_prefix-confined share prefix p s s' (inr q) k e h =
    let c = resolve_list_prefix-confined share (some prefix) q q e (starts_with_refl q) in
    (ground (arith, c), ground arith)

list_prefix-confined :
    (share : ShareLinkRecord) (prefix p : Text) (s s' : Db)
    → is_file share.target_kind ≡ false
    → list_prefix share prefix s ≡ (served p, s')
    → (starts_with share.target_key p ≡ true) × (s' ≡ s)
list_prefix-confined share prefix p s s' k h = elim (Bool-cases (is_empty prefix)) [
  | inl e ↦ (ground (arith, e, starts_with_refl share.target_key), ground (arith, e))
  | inr e ↦ elim (Bool-cases (starts_with share.target_key prefix)) [
    | inl f ↦ absolute_prefix-confined share prefix p s s' (rw (e, f) at h)
    | inr f ↦
        relative_prefix-confined share prefix p s s' (resolve_list_prefix share (some prefix)) k
          refl (rw (e, f) at h)
  ]
]

any-select-false :
    (q : ObjectRecord → Bool) (l : List ObjectRecord)
    → any q l ≡ false
    → any q (select is_shown l) ≡ false
unfolding any select
any-select-false q [] h = refl
any-select-false q (x ∷ l) h = ground (arith, any-select-false q l)

abbrev listing : (Text → Text) → ShareLinkRecord → Text → Db → PrefixListResult
listing to_lowercase share p db =
    list_objects_with_prefix to_lowercase p (codes "/") none (some share.bucket_id) (pos 0) (pos 0)
      db

listing-inside :
    (to_lowercase : Text → Text) (share : ShareLinkRecord) (p : Text) (db : Db)
    → is_file share.target_kind ≡ false
    → starts_with share.target_key p ≡ true
    → any (is_outside share) (listing to_lowercase share p db).objects ≡ false
unfolding list_objects_with_prefix
listing-inside to_lowercase share p db k h =
    let pattern_text = like_escape p ++ percent ∷ [] in
    let rows = matching_rows pattern_text (some share.bucket_id) db in
    any-page (is_outside share)
      (map (λ cp. folder_entry_from_rows cp rows) (level_prefixes p (codes "/") rows []))
      (level_objects p (codes "/") rows) p (codes "/") (pos 0) (pos 0)
      (none_outside share p (codes "/") pattern_text db k h)

module _ (b64_decode : Bytes → Option Bytes) (sign to_lowercase : Text → Text) (now : ℕ)
    (share : ShareLinkRecord) (session : Option AccountRecord) (prefix : Text)
    (access : Option Text) (status : StatusCode) (r : PrefixListResult) (db db' : Db) where
  -- Whatever prefix a request asks for, the objects that the listing of a share shows are active
  -- objects of its bucket in the scope of the share, and showing them changes nothing.
  pub list_for_share-confined :
      list_for_share b64_decode sign now to_lowercase share session prefix access db
        ≡ (served (status, r), db')
      → (any (is_outside share) r.objects ≡ false) × (db' ≡ db)
  unfolding list_for_share
  list_for_share-confined h =
      elim (Served-cases (authorize_share b64_decode sign now share session access db)) [
        | inl (x, e) ↦ absurd (ground (arith, e))
        | inr (u, e) ↦ elim (Bool-cases (is_file share.target_kind)) [
          | inl k ↦ absurd (ground (arith, e, k))
          | inr k ↦ elim (Served-cases (list_prefix share prefix db).0) [
            | inl (x, f) ↦ absurd (ground (arith, e, k, f))
            | inr (p, f) ↦
                let db1 = (list_prefix share prefix db).1 in
                let w : list_prefix share prefix db ≡ (served p, db1) = ground (arith, f) in
                let (c, same) = list_prefix-confined share prefix p db db1 k w in
                let found : r ≡ retained (listing to_lowercase share p db1) =
                  ground (arith, e, k, f) in
                let last : db' ≡ db1 = ground (arith, e, k, f) in
                (
                  ap (λ (x : PrefixListResult). any (is_outside share) x.objects) found
                      ∙ any-select-false (is_outside share)
                          (listing to_lowercase share p db1).objects
                          (listing-inside to_lowercase share p db1 k c),
                  last ∙ same,
                )
          ]
        ]
      ]
