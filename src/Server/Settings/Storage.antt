-- ===== src/Server/Settings/Storage.antt =====
-- src/server/settings_routes.rs: the storage directory and its integrity. The paths of the settings
-- are arguments, in their printed form; the disk is the one of Storage/Reconcile.
use my_s.Common.{Bool, List, Text, ltb, ℕ, ◌||◌}
use my_s.Database.{Db}
use my_s.Objects.Etags.{stats}
use my_s.Rbac.Permissions.{account_is_owner}
use my_s.Server.Auth.{require_owner}
use my_s.Server.Http.{Handler, StatusCode, demand, forbidden, http_ok, read, reply, ◌>>=◌, ◌>>◌}
use my_s.Storage.Reconcile.{IntegrityReport, count_disk_files, inspect, reconcile}

pub record StorageSettingsView : Type 0 where
  pub path : Text
  pub absolute_path : Text
  pub object_count : ℕ
  pub db_object_count : ℕ
  pub disk_file_count : ℕ
  pub used_bytes : ℕ
  pub has_data : Bool
  pub node_id : Text

unfoldable pub get_storage_settings :
    Text → Text → Text → List Text → ℕ → Handler Db (StatusCode × StorageSettingsView)
get_storage_settings path absolute node_id disk auth = do
  require_owner auth
  (used_bytes, object_count, _) ← read stats
  reply http_ok (record {
    path = path;
    absolute_path = absolute;
    object_count = object_count;
    db_object_count = object_count;
    disk_file_count = count_disk_files disk;
    used_bytes = used_bytes;
    has_data = ltb 0 object_count || ltb 0 used_bytes || ltb 0 (count_disk_files disk);
    node_id = node_id;
  })

unfoldable pub get_storage_integrity : List Text → ℕ → Handler Db (StatusCode × IntegrityReport)
get_storage_integrity disk auth = do require_owner auth; λ db. reply http_ok (inspect db disk) db

-- The state is the database with the files on the disk.
unfoldable pub post_storage_reconcile :
    (Text → Bool) → ℕ → Handler (Db × List Text) (StatusCode × IntegrityReport)
post_storage_reconcile unlinks auth = do
  demand (λ (db, _). account_is_owner auth db) forbidden
  λ (db, disk). let (r, rest) = reconcile unlinks db disk in reply http_ok r (db, rest)
