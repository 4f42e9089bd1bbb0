-- ===== src/Server/Settings/Etag.antt =====
-- src/server/settings_routes.rs: the checksums of a bucket. The task that hashes the objects again
-- is spawned by the answer `accepted`, and runs after it: `run_bucket_rehash`.
use my_s.Common.{
  Bool, Option, Text, codes, false, none, not, some, text_beq, trim, true, ℕ, ◌&&◌, ◌||◌,
}
use my_s.Database.{Db}
use my_s.Models.{BucketRecord, EtagType}
use my_s.Objects.Etags.{
  begin_bucket_etag_rehash, count_active_objects_in_bucket, set_bucket_etag_type,
}
use my_s.Rbac.Permissions.{get_bucket_by_id}
use my_s.Server.Http.{
  Handler, StatusCode, accepted, attempt, bad_request, conflict, demand, internal, lookup,
  no_content, not_found, read, reply, ◌>>=◌, ◌>>◌,
}
use my_s.Server.Settings.Nodes.{missing, require_replication_editor}

pub record BucketEtagView : Type 0 where
  pub etag_type : EtagType
  pub etag_rehash_status : Option Text
  pub etag_rehash_processed : ℕ
  pub etag_rehash_total : ℕ
  pub etag_rehash_error : Option Text

abbrev is_running : BucketRecord → Bool
is_running b = elim b.etag_rehash_status [ none ↦ false | some s ↦ text_beq s (codes "running") ]

abbrev pub recalculates : Text → Bool
recalculates apply = text_beq (trim apply) (codes "recalculate_all")

abbrev pub is_new_only : Text → Bool
is_new_only apply = text_beq (trim apply) (codes "new_only")

abbrev start_rehash : Bool → ℕ → EtagType → Handler Db (StatusCode × Option BucketEtagView)
start_rehash true id etag_type = reply no_content none
start_rehash false id etag_type = do
  total ← read (count_active_objects_in_bucket id)
  attempt internal (begin_bucket_etag_rehash id total)
  reply accepted (
      some (record {
        etag_type = etag_type;
        etag_rehash_status = some (codes "running");
        etag_rehash_processed = 0;
        etag_rehash_total = total;
        etag_rehash_error = none;
      }))

unfoldable pub put_bucket_etag :
    ℕ → ℕ → EtagType → Text → Handler Db (StatusCode × Option BucketEtagView)
put_bucket_etag auth id etag_type apply = do
  require_replication_editor auth id
  demand (λ _. is_new_only apply || recalculates apply) bad_request
  bucket ← lookup (get_bucket_by_id id) not_found
  demand (λ _. not (recalculates apply && is_running bucket)) conflict
  attempt missing (set_bucket_etag_type id etag_type)
  start_rehash (is_new_only apply) id etag_type
