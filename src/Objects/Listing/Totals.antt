-- ===== src/Objects/Listing/Totals.antt =====
-- src/db/repository.rs: the totals of a folder in a listing.
use my_s.Common.{List, Text, [], arith, length, none, select, starts_with, sum, ◌+◌, ◌∷◌, ◌≡◌}
use my_s.Models.{ObjectRecord}
use my_s.Objects.Folders.{FolderEntry}
use my_s.Objects.Listing.{add_row, add_rows, folder_entry_from_rows}

add_rows-totals :
    (e : FolderEntry) (rows : List ObjectRecord)
    → (let r = add_rows e rows in
        let inside = select (λ (o : ObjectRecord). starts_with e.prefix o.original_filename) rows in
        (r.total_bytes ≡ e.total_bytes + sum (λ (o : ObjectRecord). o.filesize_bytes) inside)
        × (r.object_count ≡ e.object_count + length inside))
unfolding add_rows add_row select sum
add_rows-totals e [] = (ground arith, ground arith)
add_rows-totals e (row ∷ rows) =
    ground (arith, add_rows-totals e rows, add_rows-totals (add_row e row) rows)

-- A folder of a listing has the total size and the number of the rows whose key begins with its
-- prefix, as that prefix is written.
folder_entry_from_rows-totals :
    (prefix : Text) (rows : List ObjectRecord)
    → (let r = folder_entry_from_rows prefix rows in
        let inside = select (λ (o : ObjectRecord). starts_with prefix o.original_filename) rows in
        (r.total_bytes ≡ sum (λ (o : ObjectRecord). o.filesize_bytes) inside)
        × (r.object_count ≡ length inside))
unfolding folder_entry_from_rows
folder_entry_from_rows-totals prefix rows = ground (
  arith,
  add_rows-totals
      (record {
        prefix = prefix;
        date_created = none;
        date_modified = none;
        total_bytes = 0;
        object_count = 0;
      })
      rows,
)
