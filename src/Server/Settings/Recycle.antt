-- ===== src/Server/Settings/Recycle.antt =====
-- src/server/settings_routes.rs: the recycle bin. `auth` is the id of the session's account.
pub mod Visible
pub mod Survivors
use my_s.Common.{
  Bool, List, Option, Text, [], false, if◌then◌else◌, leb, length, ltb, none, not, some, true, ℕ,
  ◌+◌, ◌||◌, ◌∷◌,
}
use my_s.Database.{Db, Error, Result, err, ok}
use my_s.Models.{BucketRecord, ObjectRecord, delete_action, read_action, update_action}
use my_s.Objects.Bin.{list_deleted_objects, restore_object}
use my_s.Objects.Rows.{get_object_by_id, is_active}
use my_s.Rbac.Buckets.{list_buckets}
use my_s.Rbac.Permissions.{account_is_owner, check_perm}
use my_s.Server.Blobs.{Store}
use my_s.Server.Content.{require_bucket_perm, resolve_bucket_id}
use my_s.Server.Http.{
  Handler, StatusCode, answer_with, attempt, bad_request, conflict, demand, forbidden, http_ok,
  internal, lookup, no_content, not_found, on_db, read, reply, says, ◌>>=◌, ◌>>◌,
}
use my_s.Server.Settings.Purge.{hard_purge_object}

-- The ids of the buckets that the account may read.
unfoldable pub readable_ids : ℕ → List BucketRecord → Db → List ℕ
readable_ids auth [] db = []
readable_ids auth (b ∷ buckets) db =
    let rest = readable_ids auth buckets db in
    if check_perm auth b.id read_action db then b.id ∷ rest else rest

-- No filter for an account with an owner role; the named bucket needs the right to read.
unfoldable pub recycle_bin_bucket_filter : ℕ → Option Text → Handler Db (Option (List ℕ))
recycle_bin_bucket_filter auth (some name) = do
  b ← lookup (resolve_bucket_id (some name)) not_found
  demand (require_bucket_perm auth b.id read_action) forbidden
  read (λ _. some (b.id ∷ []))
recycle_bin_bucket_filter auth none =
    read (λ db.
      if account_is_owner auth db then none else some (readable_ids auth (list_buckets db) db))

unfoldable pub list_recycle_bin : ℕ → Option Text → Handler Db (StatusCode × List ObjectRecord)
list_recycle_bin auth bucket = do
  filter ← recycle_bin_bucket_filter auth bucket
  λ db. reply http_ok (list_deleted_objects filter db) db

abbrev unrestored : Error → StatusCode
unrestored e = if says "not in recycle" e || says "already exists" e then conflict else bad_request

unfoldable pub restore_recycle_item : ℕ → ℕ → ℕ → Handler Db (StatusCode × ObjectRecord)
restore_recycle_item now auth id = do
  o ← lookup (get_object_by_id id) not_found
  demand (require_bucket_perm auth o.bucket_id update_action) forbidden
  restored ← attempt unrestored (restore_object now id)
  reply http_ok restored

unfoldable pub hard_delete_recycle_item : ℕ → Text → ℕ → ℕ → Handler Store (StatusCode × Unit {0})
hard_delete_recycle_item now node_id auth id = do
  o ← lookup (λ (s : Store). get_object_by_id id s.db) not_found
  demand (λ _. not (is_active o)) bad_request
  demand (λ (s : Store). require_bucket_perm auth o.bucket_id delete_action s.db) forbidden
  attempt internal (hard_purge_object now node_id id)
  answer_with no_content

pub record PurgeResponse : Type 0 where
  pub deleted : ℕ
  pub failed : List ℕ

abbrev pub one_failed : ℕ → PurgeResponse → PurgeResponse
one_failed id r = record { deleted = r.deleted; failed = id ∷ r.failed }

abbrev pub one_deleted : PurgeResponse → PurgeResponse
one_deleted r = record { deleted = r.deleted + 1; failed = r.failed }

abbrev pub is_ok : {A : Type 0} → Result A → Bool
is_ok (ok _) = true
is_ok (err _) = false

-- One id of the request: whether it was purged, and what is left.
abbrev pub try_purge : ℕ → Text → ℕ → ℕ → Option ObjectRecord → Store → Bool × Store
try_purge now node_id auth id none s = (false, s)
try_purge now node_id auth id (some o) s =
    if is_active o || not (require_bucket_perm auth o.bucket_id delete_action s.db)
    then (false, s)
    else let (r, s') = hard_purge_object now node_id id s in (is_ok r, s')

abbrev pub counted : Bool → ℕ → PurgeResponse → PurgeResponse
counted true id r = one_deleted r
counted false id r = one_failed id r

-- The loop over the ids; the failed ones are listed in their order.
unfoldable pub purge_ids : ℕ → Text → ℕ → List ℕ → Store → PurgeResponse × Store
purge_ids now node_id auth [] s = (record { deleted = 0; failed = [] }, s)
purge_ids now node_id auth (id ∷ ids) s =
    let (purged, s1) = try_purge now node_id auth id (get_object_by_id id s.db) s in
    let (r, s2) = purge_ids now node_id auth ids s1 in (counted purged id r, s2)

unfoldable pub purge_recycle_items :
    ℕ → Text → ℕ → List ℕ → Handler Store (StatusCode × PurgeResponse)
purge_recycle_items now node_id auth ids = do
  demand (λ _. ltb 0 (length ids)) bad_request
  demand (λ _. leb (length ids) 1000) bad_request
  λ s. let (r, s') = purge_ids now node_id auth ids s in reply http_ok r s'

abbrev pub try_purge_row : ℕ → Text → ℕ → ObjectRecord → Store → Bool × Store
try_purge_row now node_id auth o s =
    if not (require_bucket_perm auth o.bucket_id delete_action s.db)
    then (false, s)
    else let (r, s') = hard_purge_object now node_id o.id s in (is_ok r, s')

-- The loop over the rows that were listed before it.
unfoldable pub purge_rows : ℕ → Text → ℕ → List ObjectRecord → Store → PurgeResponse × Store
purge_rows now node_id auth [] s = (record { deleted = 0; failed = [] }, s)
purge_rows now node_id auth (o ∷ rows) s =
    let (purged, s1) = try_purge_row now node_id auth o s in
    let (r, s2) = purge_rows now node_id auth rows s1 in (counted purged o.id r, s2)

unfoldable pub purge_all_recycle_items :
    ℕ → Text → ℕ → Option Text → Handler Store (StatusCode × PurgeResponse)
purge_all_recycle_items now node_id auth bucket = do
  filter ← on_db (recycle_bin_bucket_filter auth bucket)
  rows ← read (λ (s : Store). list_deleted_objects filter s.db)
  λ s. let (r, s') = purge_rows now node_id auth rows s in reply http_ok r s'
