-- ===== src/Server/Settings/Purge.antt =====
-- src/server/settings_routes.rs: `hard_purge_object`, with the actions of the database on the store.
pub mod Removed
use my_s.Common.{Text, ℕ}
use my_s.Database.{Db, Exec, context, modify, object_not_found, transaction, ◌>>=◌, ◌>>◌}
use my_s.Models.{ObjectRecord}
use my_s.Objects.Rows.{delete_rows, get_object_by_id, has_object_id}
use my_s.Replication.Outbox.{enqueue_delete_for_active_peers}
use my_s.Server.Blobs.{Store, unlink}

abbrev pub in_db : {A : Type 0} → Exec Db A → Exec Store A
in_db m s = let (r, db') = m s.db in (r, record { db = db'; files = s.files })

-- The row and the DELETE jobs go in one transaction; then the file, if there is one.
abbrev purge_record : ℕ → Text → ObjectRecord → Exec Store (Unit {0})
purge_record now node_id o = do
  in_db (
      transaction (do
        _ ← enqueue_delete_for_active_peers now o.id o.filepath o.etag node_id
        modify (delete_rows (has_object_id o.id))))
  modify (λ (s : Store). record { db = s.db; files = unlink o.filepath s.files })

unfoldable pub hard_purge_object : ℕ → Text → ℕ → Exec Store (Unit {0})
hard_purge_object now node_id id = do
  o ← λ (s : Store). context (get_object_by_id id s.db) object_not_found s
  purge_record now node_id o
