-- ===== src/Objects/Paging.antt =====
-- src/db/repository.rs: `page_folder_object_lists`, the window of a listing of folders and then objects.
pub mod Pages
use my_s.Common.{
  Bool, List, Text, [], drop, if◌then◌else◌, leb, length, ltb, map, min, nat_beq, non_positive,
  take, to_nat, ℕ, ℤ, ◌+◌, ◌-◌, ◌^◌,
}
use my_s.Models.{ObjectRecord}
use my_s.Objects.Folders.{FolderEntry}

pub record PrefixListResult : Type 0 where
  pub prefix : Text
  pub delimiter : Text
  pub common_prefixes : List Text
  pub folders : List FolderEntry
  pub objects : List ObjectRecord
  pub total : ℕ
  pub offset : ℕ
  pub limit : ℕ
  pub has_more : Bool

abbrev pub usize_max : ℕ
usize_max = 2 ^ 64 - 1

-- `xs[i..j]`
abbrev pub slice {ℓ} : {A : Type ℓ} → ℕ → ℕ → List A → List A
slice i j xs = take (j - i) (drop i xs)

abbrev pub page_limit : ℤ → ℕ
page_limit limit = if non_positive limit then usize_max else to_nat limit

abbrev pub page_end : ℤ → ℤ → ℕ
page_end offset limit = min (to_nat offset + page_limit limit) usize_max

abbrev pub page_folders : List FolderEntry → ℕ → ℕ → List FolderEntry
page_folders folders offset stop =
    if leb (length folders) offset then [] else slice offset (min stop (length folders)) folders

abbrev pub page_objects : ℕ → List ObjectRecord → ℕ → ℕ → List ObjectRecord
page_objects folder_len objects offset stop =
    if leb stop folder_len
    then []
    else if leb (length objects) (offset - folder_len)
    then []
    else slice (offset - folder_len) (min (stop - folder_len) (length objects)) objects

unfoldable pub page_folder_object_lists :
    List FolderEntry → List ObjectRecord → Text → Text → ℤ → ℤ → PrefixListResult
page_folder_object_lists folders objects prefix delimiter offset limit =
    let start = to_nat offset in
    let total = length folders + length objects in
    let fs = page_folders folders start (page_end offset limit) in
    let os = page_objects (length folders) objects start (page_end offset limit) in
    record {
      prefix = prefix;
      delimiter = delimiter;
      common_prefixes = map (λ (f : FolderEntry). f.prefix) fs;
      folders = fs;
      objects = os;
      total = total;
      offset = start;
      limit = if nat_beq (page_limit limit) usize_max then total else page_limit limit;
      has_more = ltb (start + (length fs + length os)) total;
    }
