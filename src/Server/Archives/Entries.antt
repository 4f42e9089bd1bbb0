-- ===== src/Server/Archives/Entries.antt =====
-- src/server/folder_archive.rs: the names in an archive.
use my_s.Common.{
  All, Bool, List, Text, [], all, codes, contains_char, false, not, slash, split, text_beq, ◌&&◌,
  ◌++◌, ◌≡◌, ◌≢◌,
}
use my_s.Keys.{valid_segment}
use my_s.Keys.Segments.{SegmentOf}
use my_s.Models.{ObjectRecord}
use my_s.Objects.Listing.{base_name, keep}
use my_s.Storage.Engine.{absolute_path_for}

-- A name that stays below the directory in which the archive is unpacked: it has no empty segment, so
-- that it does not begin with `/`, and no segment `.` or `..`.
pub record IsSafeName (name : Text) : Type 0 where
  pub not_empty : name ≢ []
  pub no_nul : contains_char 0 name ≡ false
  pub segments :
      (seg : Text)
      → contains_char slash seg ≡ false
      → SegmentOf seg name
      → (seg ≢ []) × (seg ≢ codes ".") × (seg ≢ codes "..")

abbrev pub SafeEntries : List (Text × Text) → Type 0
SafeEntries entries = All (λ (e : Text × Text). IsSafeName (e.0)) entries

abbrev pub has_valid_key : ObjectRecord → Bool
has_valid_key o = all valid_segment (split slash o.original_filename)

abbrev pub is_entry : Text → Text → Text × Text → Bool
is_entry name path e = text_beq (e.0) name && text_beq (e.1) path

-- The objects that belong into the archive under a name and with a file.
abbrev pub belongs : Text → Text → Text → Text → ObjectRecord → Bool
belongs root prefix rel path o =
    text_beq o.original_filename (prefix ++ rel)
    && (text_beq (absolute_path_for root o.filepath) path
        && (not (text_beq (base_name o.original_filename) keep) && not (contains_char 0 rel)))
