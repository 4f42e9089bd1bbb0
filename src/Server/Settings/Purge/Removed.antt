-- ===== src/Server/Settings/Purge/Removed.antt =====
-- src/server/settings_routes.rs: what `hard_purge_object` removes, and what it leaves.
use my_s.Common.{Option-cases, Text, delete, inl, inr, none, refl, some, ℕ, ◌≡◌}
use my_s.Database.{err, object_not_found, ok, transaction}
use my_s.Models.{CrudAction, ObjectRecord}
use my_s.Objects.Rows.{delete_rows, get_object_by_id, has_object_id}
use my_s.Rbac.Permissions.{
  account_is_owner, account_owns_bucket, check_perm, effective_perms, get_bucket_by_id,
}
use my_s.Replication.Outbox.{enqueue_for_active_peers}
use my_s.Server.Blobs.{Store, unlink}
use my_s.Server.Settings.Purge.{hard_purge_object}

-- A found object is removed, with its file; no table but `object` and `replication_outbox` changes.
pub hard_purge_object-found :
    (now : ℕ) (node_id : Text) (id : ℕ) (o : ObjectRecord) (s : Store)
    → get_object_by_id id s.db ≡ some o
    → ((hard_purge_object now node_id id s).0 ≡ ok tt)
      × ((hard_purge_object now node_id id s).1.db.objects
          ≡ delete (has_object_id o.id) s.db.objects)
      × ((hard_purge_object now node_id id s).1.files ≡ unlink o.filepath s.files)
unfolding hard_purge_object transaction enqueue_for_active_peers delete_rows
hard_purge_object-found now node_id id o s h = (rw h refl, rw h refl, rw h refl)

-- Of the database nothing but the row and the outbox is changed.
pub hard_purge_object-only :
    (now : ℕ) (node_id : Text) (id : ℕ) (o : ObjectRecord) (s : Store)
    → get_object_by_id id s.db ≡ some o
    → (let db' = (hard_purge_object now node_id id s).1.db in
        db' ≡ record s.db {
          objects = delete (has_object_id o.id) s.db.objects;
          outbox = db'.outbox;
          next_outbox = db'.next_outbox;
        })
unfolding hard_purge_object transaction enqueue_for_active_peers delete_rows
hard_purge_object-only now node_id id o s h = rw h refl

pub hard_purge_object-missing :
    (now : ℕ) (node_id : Text) (id : ℕ) (s : Store)
    → get_object_by_id id s.db ≡ none
    → hard_purge_object now node_id id s ≡ (err object_not_found, s)
unfolding hard_purge_object
hard_purge_object-missing now node_id id s h = rw h refl

pub hard_purge_object-tables :
    (now : ℕ) (node_id : Text) (id : ℕ) (s : Store)
    → ((hard_purge_object now node_id id s).1.db.buckets ≡ s.db.buckets)
      × ((hard_purge_object now node_id id s).1.db.shares ≡ s.db.shares)
      × ((account : ℕ) (bucket : ℕ) (action : CrudAction)
          → check_perm account bucket action (hard_purge_object now node_id id s).1.db
            ≡ check_perm account bucket action s.db)
unfolding hard_purge_object transaction enqueue_for_active_peers delete_rows check_perm
    effective_perms account_owns_bucket account_is_owner get_bucket_by_id
hard_purge_object-tables now node_id id s = elim (Option-cases (get_object_by_id id s.db)) [
  | inl e ↦ (rw e refl, rw e refl, λ a b c. rw e refl)
  | inr (o, e) ↦ (rw e refl, rw e refl, λ a b c. rw e refl)
]
