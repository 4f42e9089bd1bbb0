-- ===== src/Server/Settings/Recycle/Survivors.antt =====
-- src/server/settings_routes.rs: what a request to purge objects leaves.
use my_s.Common.{
  Bool, Bool-cases, List, Option-cases, Text, [], ap, arith, delete, false, first, first-holds, inl,
  inr, leb, length, ltb, nat_beq, nat_beq_iff, not, refl, some, true, ℕ, ◌+◌, ◌||◌, ◌∙◌, ◌∷◌, ◌≡◌,
  ◌⊎◌,
}
use my_s.Database.{Db}
use my_s.Models.{ObjectRecord, delete_action}
use my_s.Objects.Rows.{get_object_by_id, has_object_id, is_active}
use my_s.Rbac.Permissions.{check_perm}
use my_s.Server.Blobs.{Store}
use my_s.Server.Content.{require_bucket_perm}
use my_s.Server.Http.{bad_request, http_ok, refused, served}
use my_s.Server.Settings.Purge.{hard_purge_object}
use my_s.Server.Settings.Purge.Removed.{
  hard_purge_object-found, hard_purge_object-missing, hard_purge_object-tables,
}
use my_s.Server.Settings.Recycle.{purge_ids, purge_recycle_items, try_purge}

-- An object that the account may not purge: not in the bin, or without the right to delete.
abbrev pub is_protected : ℕ → Db → ObjectRecord → Bool
is_protected auth db x = is_active x || not (check_perm auth x.bucket_id delete_action db)

first-delete_other :
    (i k : ℕ) (l : List ObjectRecord)
    → nat_beq i k ≡ false
    → first (has_object_id k) (delete (has_object_id i) l) ≡ first (has_object_id k) l
unfolding first delete
first-delete_other i k [] h = refl
first-delete_other i k (x ∷ l) h = ground (arith, first-delete_other i k l)

-- The store still has the object, and it is still protected.
abbrev Survives : ℕ → ObjectRecord → ℕ → Store → Type 0
Survives auth x k s = (get_object_by_id k s.db ≡ some x) × (is_protected auth s.db x ≡ true)

kept_by_purge :
    (now : ℕ) (node_id : Text) (auth i k : ℕ) (x : ObjectRecord) (s : Store)
    → nat_beq i k ≡ false
    → Survives auth x k s
    → Survives auth x k (hard_purge_object now node_id i s).1
unfolding get_object_by_id
kept_by_purge now node_id auth i k x s d (f, p) = elim (Option-cases (get_object_by_id i s.db)) [
  | inl e ↦ rw (hard_purge_object-missing now node_id i s e) (f, p)
  | inr (o, e) ↦
      let (_, left, _) = hard_purge_object-found now node_id i o s e in
      let (_, _, perms) = hard_purge_object-tables now node_id i s in
      let same : o.id ≡ i = ground (arith, first-holds (has_object_id i) s.db.objects o e) in
      (
        ap (first (has_object_id k)) left
            ∙ first-delete_other o.id k s.db.objects (ap (λ j. nat_beq j k) same ∙ d)
            ∙ f,
        ap (λ c. is_active x || not c) (perms auth x.bucket_id delete_action) ∙ p,
      )
]

kept_by_try :
    (now : ℕ) (node_id : Text) (auth i k : ℕ) (x : ObjectRecord) (s : Store)
    → Survives auth x k s
    → Survives auth x k (try_purge now node_id auth i (get_object_by_id i s.db) s).1
unfolding require_bucket_perm
kept_by_try now node_id auth i k x s (f, p) = elim (Option-cases (get_object_by_id i s.db)) [
  | inl e ↦ rw e (f, p)
  | inr (o, e) ↦ elim (Bool-cases (nat_beq i k)) [
    | inr d ↦
        elim (Bool-cases (is_active o || not (check_perm auth o.bucket_id delete_action s.db))) [
          | inl c ↦ rw (e, c) (f, p)
          | inr c ↦ rw (e, c) (kept_by_purge now node_id auth i k x s d (f, p))
        ]
    | inl d ↦
        let same : o ≡ x =
          ground (arith, f, e, ap (λ j. get_object_by_id j s.db) ((nat_beq_iff i k).0 d)) in
        rw (e, ap (is_protected auth s.db) same ∙ p) (f, p)
  ]
]

kept_by_all :
    (now : ℕ) (node_id : Text) (auth k : ℕ) (x : ObjectRecord) (ids : List ℕ) (s : Store)
    → Survives auth x k s
    → Survives auth x k (purge_ids now node_id auth ids s).1
unfolding purge_ids
kept_by_all now node_id auth k x [] s h = h
kept_by_all now node_id auth k x (i ∷ ids) s h =
    kept_by_all now node_id auth k x ids
      (try_purge now node_id auth i (get_object_by_id i s.db) s).1
      (kept_by_try now node_id auth i k x s h)

purge_ids-total :
    (now : ℕ) (node_id : Text) (auth : ℕ) (ids : List ℕ) (s : Store)
    → (purge_ids now node_id auth ids s).0.deleted
        + length (purge_ids now node_id auth ids s).0.failed
      ≡ length ids
unfolding purge_ids
purge_ids-total now node_id auth [] s = refl
purge_ids-total now node_id auth (i ∷ ids) s =
    elim (Bool-cases (try_purge now node_id auth i (get_object_by_id i s.db) s).0) [
      | inl e ↦ ground (
        arith,
        e,
        purge_ids-total now node_id auth ids
            (try_purge now node_id auth i (get_object_by_id i s.db) s).1,
      )
      | inr e ↦ ground (
        arith,
        e,
        purge_ids-total now node_id auth ids
            (try_purge now node_id auth i (get_object_by_id i s.db) s).1,
      )
    ]

-- Whatever ids a request to purge the recycle bin lists, an object that is not in the bin, or that
-- the account has no right to delete, is kept as it is; and an answered request counts each listed
-- id once, as deleted or as failed.
pub purge_recycle_items-survivors :
    (now : ℕ) (node_id : Text) (auth k : ℕ) (ids : List ℕ) (x : ObjectRecord) (s : Store)
    → get_object_by_id k s.db ≡ some x
    → is_protected auth s.db x ≡ true
    → (get_object_by_id k (purge_recycle_items now node_id auth ids s).1.db ≡ some x)
      × ((purge_recycle_items now node_id auth ids s).0
            ≡ served (http_ok, (purge_ids now node_id auth ids s).0)
          ⊎ (purge_recycle_items now node_id auth ids s).0 ≡ refused bad_request)
      × ((purge_ids now node_id auth ids s).0.deleted
            + length (purge_ids now node_id auth ids s).0.failed
          ≡ length ids)
unfolding purge_recycle_items
purge_recycle_items-survivors now node_id auth k ids x s f p =
    let total = purge_ids-total now node_id auth ids s in
    let kept = (kept_by_all now node_id auth k x ids s (f, p)).0 in
    elim (Bool-cases (ltb 0 (length ids))) [
      | inr e ↦ (rw e f, inr (rw e refl), total)
      | inl e ↦ elim (Bool-cases (leb (length ids) 1000)) [
        | inr l ↦ (rw (e, l) f, inr (rw (e, l) refl), total)
        | inl l ↦ (rw (e, l) kept, inl (rw (e, l) refl), total)
      ]
    ]
