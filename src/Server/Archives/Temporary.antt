-- ===== src/Server/Archives/Temporary.antt =====
-- src/server/web_routes.rs: what the handler of archives leaves behind.
use my_s.Common.{
  Bool, Bool-cases, Bytes, List, Option, Option-cases, Text, [], arith, if◌then◌else◌, inl, inr,
  none, some, text_beq, true, ℕ, ◌≡◌, ap, ◌∙◌, ◌∷◌,
}
use my_s.Database.{Db, Result-cases}
use my_s.Keys.{normalize_folder_prefix}
use my_s.Models.{BucketRecord, read_action}
use my_s.Objects.Folders.{list_keys_under_prefix}
use my_s.Rbac.Permissions.{check_perm}
use my_s.Server.Archives.{
  ArchiveFormat, ArchiveResponse, archive_path, build_archive, filter_archive_entries,
  folder_archive, has_none, parse_format, send_archive,
}
use my_s.Server.Content.{require_bucket_perm, resolve_bucket_id}
use my_s.Server.Http.{StatusCode, served}
use my_s.Storage.Engine.{Disk, read_file, remove_file, write_file}
use my_s.Storage.Engine.Written.{read_file-remove_file, read_file-write_file}

module _ (write : ArchiveFormat → List (Text × Text) → Disk → Bytes × Bool)
    (root unique : Text) where
  sent :
      (format : ArchiveFormat) (prefix : Text) (entries : List (Text × Text))
      (r : StatusCode × ArchiveResponse) (db db' : Db) (disk disk' : Disk)
      → send_archive write root unique format prefix db
          (build_archive write root unique format entries disk)
        ≡ (served r, (db', disk'))
      → (db' ≡ db)
        × ((q : Text)
            → read_file q disk' ≡ (
                if text_beq (archive_path write root unique format) q
                then none
                else read_file q disk))
  unfolding build_archive
  sent format prefix [] r db db' disk disk' h = absurd (ground arith)
  sent format prefix (e ∷ es) r db db' disk disk' h =
      let p = archive_path write root unique format in
      let bytes = (write format (e ∷ es) disk).0 in
      elim (Bool-cases (write format (e ∷ es) disk).1) [
        | inr k ↦ absurd (ground (arith, k))
        | inl k ↦
            let left : disk' ≡ remove_file p (write_file p bytes disk) = ground (arith, k) in
            (
              ground (arith, k),
              λ q.
                  ap (read_file q) left
                  ∙ read_file-remove_file q p (write_file p bytes disk)
                  ∙ ground (arith, read_file-write_file q p bytes disk),
            )
      ]

  -- A folder is only sent as an archive from a known bucket that the account may read; and after it
  -- has been sent the database is as it was, and so is every file but the temporary one, which is gone.
  folder_archive-files :
      (auth : ℕ) (bucket : Option Text) (raw_prefix raw_format : Text)
      (r : StatusCode × ArchiveResponse) (db db' : Db) (disk disk' : Disk)
      → folder_archive write root unique auth bucket raw_prefix raw_format (db, disk)
        ≡ (served r, (db', disk'))
      → (format : ArchiveFormat) × (b : BucketRecord) × (resolve_bucket_id bucket db ≡ some b)
        × (check_perm auth b.id read_action db ≡ true)
        × (db' ≡ db)
        × ((q : Text)
            → read_file q disk' ≡ (
                if text_beq (archive_path write root unique format) q
                then none
                else read_file q disk))
  unfolding folder_archive require_bucket_perm
  folder_archive-files auth bucket raw_prefix raw_format r db db' disk disk' h =
      elim (Result-cases (normalize_folder_prefix raw_prefix)) [
        | inr (x, e) ↦ absurd (ground (arith, e))
        | inl (prefix, e) ↦ elim (Option-cases (parse_format raw_format)) [
          | inl f ↦ absurd (ground (arith, e, f))
          | inr (format, f) ↦ elim (Option-cases (resolve_bucket_id bucket db)) [
            | inl g ↦ absurd (ground (arith, e, f, g))
            | inr (b, g) ↦
                let entries =
                  filter_archive_entries root prefix (list_keys_under_prefix b.id prefix db) in
                elim (Bool-cases (check_perm auth b.id read_action db)) [
                  | inr k ↦ absurd (ground (arith, e, f, g, k))
                  | inl k ↦ elim (Bool-cases (has_none entries)) [
                    | inl n ↦ absurd (ground (arith, e, f, g, k, n))
                    | inr n ↦
                        let (same, files) =
                          sent format prefix entries r db db' disk disk'
                            (ground (arith, e, f, g, k, n)) in
                        (format, b, g, k, same, files)
                  ]
                ]
          ]
        ]
      ]
