-- ===== src/Storage/Reconcile/Report.antt =====
-- src/storage/reconcile.rs: the counts of the reports.
use my_s.Common.{◌+◌, ◌≡◌}
use my_s.Storage.Reconcile.{IntegrityReport}

-- The counts of a report agree.
abbrev pub AddsUp : IntegrityReport → Type 0
AddsUp r =
    (r.active_ok + r.missing_active_count ≡ r.db_active)
    × (r.recycle_ok + r.missing_recycle_count ≡ r.db_recycled)
    × (r.db_active + r.db_recycled ≡ r.db_rows)
