-- ===== src/Storage/Reconcile/Orphans.antt =====
-- src/storage/reconcile.rs: which files a repair unlinks.
use my_s.Common.{
  Bool, Bool-cases, List, Text, [], any, any-cong, any-map, any-order_by, any-select, ap, arith,
  codes, delete, delete-delete, delete-never, inl, inr, map, not, refl, select, starts_with, sym,
  text_beq, text_beq_iff, text_beq_refl, text_leb, true, ◌&&◌, ◌++◌, ◌||◌, ◌∙◌, ◌∷◌, ◌≡◌,
}
use my_s.Database.{Db}
use my_s.Objects.Rows.Unique.{text_beq_sym}
use my_s.Storage.Reconcile.{
  file_at, has_path, list_db_object_files, list_disk_object_files, objects_prefix, orphans,
  reconcile, unlink_orphans,
}

module _ (unlinks : Text → Bool) where
  abbrev unlinked_by : List Text → Text → Bool
  unlinked_by rels name = any (λ rel. unlinks rel && file_at rel name) rels

  delete-cong :
      (p q : Text → Bool) (l : List Text) → ((x : Text) → p x ≡ q x) → delete p l ≡ delete q l
  unfolding delete
  delete-cong p q [] h = refl
  delete-cong p q (x ∷ l) h = ground (arith, h x, delete-cong p q l h)

  unlink_orphans-files :
      (rels disk : List Text)
      → (unlink_orphans unlinks rels disk).1 ≡ delete (unlinked_by rels) disk
  unfolding unlink_orphans any
  unlink_orphans-files [] disk = sym (delete-never disk)
  unlink_orphans-files (rel ∷ rels) disk = elim (Bool-cases (unlinks rel)) [
    | inl e ↦
        (rw e (unlink_orphans-files rels (delete (file_at rel) disk)))
        ∙ delete-delete (file_at rel) (unlinked_by rels) disk
        ∙ delete-cong (λ x. file_at rel x || unlinked_by rels x) (unlinked_by (rel ∷ rels)) disk
            (λ x. rw e refl)
    | inr e ↦
        (rw e (unlink_orphans-files rels disk))
        ∙ delete-cong (unlinked_by rels) (unlinked_by (rel ∷ rels)) disk (λ x. rw e refl)
  ]

-- A visible file to which no row refers.
abbrev pub is_orphan : Db → Text → Bool
is_orphan db name =
    not (starts_with (codes ".") name)
    && not (any (has_path (objects_prefix ++ name)) (list_db_object_files db))

any-equal :
    (q : Text → Bool) (x : Text) (l : List Text)
    → any (λ n. q n && text_beq x n) l ≡ (q x && any (λ f. text_beq f x) l)
unfolding any
any-equal q x [] = ground arith
any-equal q x (n ∷ l) = elim (Bool-cases (text_beq x n)) [
  | inl e ↦
      let same : x ≡ n = (text_beq_iff x n).0 e in
      ground (arith, ap q same, text_beq_sym x n, any-equal q x l)
  | inr e ↦ ground (arith, text_beq_sym x n, any-equal q x l)
]

delete_members :
    (p q : Text → Bool) (l : List Text)
    → ((x : Text) → any (λ f. text_beq f x) l ≡ true → p x ≡ q x)
    → delete p l ≡ delete q l
unfolding delete any
delete_members p q [] h = refl
delete_members p q (x ∷ l) h =
    ground (arith, h x, text_beq_refl x, delete_members p q l (λ y k. h y (ground (arith, k))))

-- The orphans that a repair unlinks are the visible files to which no row refers.
unlinked_by-orphans :
    (unlinks : Text → Bool) (db : Db) (disk : List Text) (x : Text)
    → any (λ f. text_beq f x) disk ≡ true
    → unlinked_by unlinks (orphans (list_db_object_files db) (list_disk_object_files disk)) x
      ≡ (is_orphan db x && unlinks (objects_prefix ++ x))
unfolding text_beq orphans list_disk_object_files
unlinked_by-orphans unlinks db disk x h =
    any-order_by (λ rel. unlinks rel && file_at rel x) text_leb
      (select (λ path. not (any (has_path path) (list_db_object_files db)))
        (list_disk_object_files disk))
    ∙ any-select (λ path. not (any (has_path path) (list_db_object_files db)))
        (λ rel. unlinks rel && file_at rel x) (list_disk_object_files disk)
    ∙ any-order_by
        (λ rel.
          not (any (has_path rel) (list_db_object_files db)) && (unlinks rel && file_at rel x))
        text_leb
        (map (λ name. objects_prefix ++ name)
          (select (λ name. not (starts_with (codes ".") name)) disk))
    ∙ any-map (λ name. objects_prefix ++ name)
        (λ rel.
          not (any (has_path rel) (list_db_object_files db)) && (unlinks rel && file_at rel x))
        (select (λ name. not (starts_with (codes ".") name)) disk)
    ∙ any-select (λ name. not (starts_with (codes ".") name))
        (λ name.
          not (any (has_path (objects_prefix ++ name)) (list_db_object_files db))
          && (unlinks (objects_prefix ++ name) && file_at (objects_prefix ++ name) x))
        disk
    ∙ any-cong
        (λ name.
          not (starts_with (codes ".") name)
          && (not (any (has_path (objects_prefix ++ name)) (list_db_object_files db))
              && (unlinks (objects_prefix ++ name) && file_at (objects_prefix ++ name) x)))
        (λ name. (is_orphan db name && unlinks (objects_prefix ++ name)) && text_beq x name) disk
        (λ name. ground arith)
    ∙ any-equal (λ name. is_orphan db name && unlinks (objects_prefix ++ name)) x disk
    ∙ ground (arith, h)

-- A repair leaves exactly the files that are hidden, or to which a row refers, or that cannot be
-- unlinked; they stay in their order.
pub reconcile-files :
    (unlinks : Text → Bool) (db : Db) (disk : List Text)
    → (reconcile unlinks db disk).1
      ≡ delete (λ name. is_orphan db name && unlinks (objects_prefix ++ name)) disk
unfolding reconcile
reconcile-files unlinks db disk =
    unlink_orphans-files unlinks (orphans (list_db_object_files db) (list_disk_object_files disk))
      disk
    ∙ delete_members
        (unlinked_by unlinks (orphans (list_db_object_files db) (list_disk_object_files disk)))
        (λ name. is_orphan db name && unlinks (objects_prefix ++ name)) disk
        (λ x h. unlinked_by-orphans unlinks db disk x h)
