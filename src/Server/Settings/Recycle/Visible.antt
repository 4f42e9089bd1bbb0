-- ===== src/Server/Settings/Recycle/Visible.antt =====
-- src/server/settings_routes.rs: what the recycle bin shows.
use my_s.Common.{
  Bool, Bool-cases, List, Option, Option-cases, Text, [], any, any-order_by, any-select, ap, arith,
  false, inl, inr, nat_beq, nat_beq_iff, never_any, none, not, order_by, refl, select, some, sym,
  true, ℕ, ◌&&◌, ◌||◌, ◌∙◌, ◌∷◌, ◌≡◌,
}
use my_s.Database.{Db}
use my_s.Models.{BucketRecord, ObjectRecord, read_action}
use my_s.Objects.Bin.{deleted_leb, list_deleted_objects}
use my_s.Objects.Rows.{is_active}
use my_s.Rbac.Buckets.{list_buckets}
use my_s.Rbac.Permissions.{account_is_owner, check_perm}
use my_s.Rbac.Permissions.Checks.{check_perm_iff}
use my_s.Server.Content.{require_bucket_perm, resolve_bucket_id}
use my_s.Server.Http.{Served-cases, StatusCode, served}
use my_s.Server.Settings.Recycle.{list_recycle_bin, readable_ids, recycle_bin_bucket_filter}

-- A row that the account should not see: not in the bin, or of a bucket that it may not read.
abbrev pub is_foreign : ℕ → Db → ObjectRecord → Bool
is_foreign auth db o = is_active o || not (check_perm auth o.bucket_id read_action db)

readable_ids-check_perm :
    (auth b : ℕ) (buckets : List BucketRecord) (db : Db)
    → any (nat_beq b) (readable_ids auth buckets db) ≡ true
    → check_perm auth b read_action db ≡ true
unfolding readable_ids any
readable_ids-check_perm auth b [] db h = ground arith
readable_ids-check_perm auth b (x ∷ buckets) db h =
    elim (Bool-cases (check_perm auth x.id read_action db)) [
      | inr e ↦ readable_ids-check_perm auth b buckets db (ground arith)
      | inl e ↦ elim (Bool-cases (nat_beq b x.id)) [
        | inl k ↦ rw ((nat_beq_iff b x.id).0 k) e
        | inr k ↦ readable_ids-check_perm auth b buckets db (ground arith)
      ]
    ]

check_perm-owner :
    (auth b : ℕ) (db : Db)
    → account_is_owner auth db ≡ true
    → check_perm auth b read_action db ≡ true
check_perm-owner auth b db h = check_perm_iff auth b read_action db ∙ ground (arith, h)

abbrev within : Option (List ℕ) → ℕ → Bool
within none b = true
within (some ids) b = any (nat_beq b) ids

abbrev newest_first : ObjectRecord → ObjectRecord → Bool
newest_first a b = deleted_leb b a

-- The rows of the buckets of a filter that lets readable buckets through.
none_foreign :
    (auth : ℕ) (filter : Option (List ℕ)) (db : Db)
    → ((b : ℕ) → within filter b ≡ true → check_perm auth b read_action db ≡ true)
    → any (is_foreign auth db) (list_deleted_objects filter db) ≡ false
unfolding list_deleted_objects
none_foreign auth none db h =
    any-order_by (is_foreign auth db) newest_first (select (λ o. not (is_active o)) db.objects)
    ∙ any-select (λ o. not (is_active o)) (is_foreign auth db) db.objects
    ∙ never_any (λ o. not (is_active o) && is_foreign auth db o) db.objects
        (λ o. ground (arith, h o.bucket_id refl))
none_foreign auth (some ids) db h =
    any-select (λ (r : ObjectRecord). any (nat_beq r.bucket_id) ids) (is_foreign auth db)
      (order_by newest_first (select (λ o. not (is_active o)) db.objects))
    ∙ any-order_by (λ r. any (nat_beq r.bucket_id) ids && is_foreign auth db r) newest_first
        (select (λ o. not (is_active o)) db.objects)
    ∙ any-select (λ o. not (is_active o))
        (λ r. any (nat_beq r.bucket_id) ids && is_foreign auth db r) db.objects
    ∙ never_any (λ o. not (is_active o) && (any (nat_beq o.bucket_id) ids && is_foreign auth db o))
        db.objects (λ o. ground (arith, h o.bucket_id))

-- A filter that is computed lets through only buckets that the account may read, and the database
-- stays.
filter-readable :
    (auth : ℕ) (bucket : Option Text) (filter : Option (List ℕ)) (db db' : Db)
    → recycle_bin_bucket_filter auth bucket db ≡ (served filter, db')
    → (db' ≡ db) × ((b : ℕ) → within filter b ≡ true → check_perm auth b read_action db ≡ true)
unfolding any recycle_bin_bucket_filter require_bucket_perm
filter-readable auth none filter db db' h = elim (Bool-cases (account_is_owner auth db)) [
  | inl e ↦ (sym (ap (λ x. x.1) h), λ b k. check_perm-owner auth b db e)
  | inr e ↦ (
    sym (ap (λ x. x.1) h),
    λ b k.
        let f : filter ≡ some (readable_ids auth (list_buckets db) db) = ground arith in
        readable_ids-check_perm auth b (list_buckets db) db (ap (λ i. within i b) (sym f) ∙ k),
  )
]
filter-readable auth (some name) filter db db' h =
    elim (Option-cases (resolve_bucket_id (some name) db)) [
      | inl e ↦ absurd (ground arith)
      | inr (x, e) ↦ elim (Bool-cases (check_perm auth x.id read_action db)) [
        | inr k ↦ absurd (ground arith)
        | inl k ↦ (
          ground arith,
          λ b w.
              let f : filter ≡ some (x.id ∷ []) = ground arith in
              let same : b ≡ x.id = ground (arith, ap (λ i. within i b) (sym f) ∙ w) in
              ap (λ i. check_perm auth i read_action db) same ∙ k,
        )
      ]
    ]

-- The recycle bin shows an account only objects that are in the bin, of buckets that the account may
-- read, whether a bucket is named or not, and showing it changes nothing.
pub list_recycle_bin-readable :
    (auth : ℕ) (bucket : Option Text) (status : StatusCode) (rows : List ObjectRecord) (db db' : Db)
    → list_recycle_bin auth bucket db ≡ (served (status, rows), db')
    → (db' ≡ db) × (any (is_foreign auth db) rows ≡ false)
unfolding list_recycle_bin
list_recycle_bin-readable auth bucket status rows db db' h =
    elim (Served-cases (recycle_bin_bucket_filter auth bucket db).0) [
      | inl (st, e) ↦ absurd (ground arith)
      | inr (filter, e) ↦
          let db1 = (recycle_bin_bucket_filter auth bucket db).1 in
          let whole : recycle_bin_bucket_filter auth bucket db ≡ (served filter, db1) =
            ground (arith, e) in
          let (same, readable) = filter-readable auth bucket filter db db1 whole in
          let last : db' ≡ db1 = ground (arith, e) in
          let shown : rows ≡ list_deleted_objects filter db1 = ground (arith, e) in
          (
            last ∙ same,
            ap (any (is_foreign auth db)) (shown ∙ ap (list_deleted_objects filter) same)
                ∙ none_foreign auth filter db readable,
          )
    ]
