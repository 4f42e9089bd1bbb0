-- ===== src/Tests/Listings.antt =====
-- Runs of the theorems on listings, patterns and ranges.
use my_s.Common.{
  List, [], arith, codes, drop, is_whitespace, pos, refl, split, strip_prefix, take, to_nat, trim,
  trim_end_matches, trim_start_matches, ◌<◌, ◌∷◌, ◌≡◌, ◌≤◌,
}
use my_s.Objects.Folders.{FolderEntry}
use my_s.Objects.Listing.{folder_entry_from_rows}
use my_s.Objects.Paging.{page_folder_object_lists, page_limit}
use my_s.Objects.Paging.Pages.{entries, page_folder_object_lists-window}
use my_s.Server.Ranges.{parse_bytes_range, parse_digits, parse_u64, split_once}
use my_s.Server.Ranges.Bounds.{parse_bytes_range-bounds}
use my_s.Tests.Data.{cat}

abbrev one_folder : List FolderEntry
one_folder = folder_entry_from_rows (codes "a/") (cat ∷ []) ∷ []

page_folder_object_lists-window_example :
    (let r = page_folder_object_lists one_folder (cat ∷ cat ∷ []) [] (codes "/") (pos 0) (pos 2) in
      entries r.folders r.objects)
    ≡ take (page_limit (pos 2)) (drop (to_nat (pos 0)) (entries one_folder (cat ∷ cat ∷ [])))
page_folder_object_lists-window_example =
    page_folder_object_lists-window one_folder (cat ∷ cat ∷ []) [] (codes "/") (pos 0) (pos 2)
      (ground arith)

parse_bytes_range-bounds_example : (2 ≤ 4) × (4 < 10)
unfolding parse_bytes_range parse_u64 parse_digits split_once split strip_prefix trim
    trim_start_matches trim_end_matches is_whitespace
parse_bytes_range-bounds_example = parse_bytes_range-bounds (codes "bytes=2-4") 10 2 4 refl
