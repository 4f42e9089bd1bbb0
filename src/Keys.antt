-- ===== src/Keys.antt =====
-- src/server/keys.rs: object keys and folder prefixes taken from request paths.
pub mod Segments
use my_s.Common.{
  Bool, Text, [], all, codes, if◌then◌else◌, is_empty, nat_beq, not, slash, split, text_beq, trim,
  trim_end_matches, trim_start_matches, ℕ, ◌++◌, ◌||◌, ◌∷◌,
}
use my_s.Database.{
  Result, err, key_empty, key_invalid_segment, ok, prefix_empty, prefix_invalid_segment,
}

abbrev pub is_slash : ℕ → Bool
is_slash c = nat_beq c slash

-- The test in the loop over `split('/')`.
unfoldable pub valid_segment : Text → Bool
unfolding text_beq
valid_segment segment =
    not (is_empty segment || text_beq segment (codes ".") || text_beq segment (codes ".."))

unfoldable pub normalize_object_key : Text → Result Text
normalize_object_key raw =
    let key = trim_start_matches is_slash (trim raw) in
    if is_empty key
    then err key_empty
    else if all valid_segment (split slash key)
    then ok key
    else err key_invalid_segment

unfoldable pub normalize_folder_prefix : Text → Result Text
normalize_folder_prefix raw =
    let key = trim_start_matches is_slash (trim raw) in
    if is_empty key || text_beq key (codes "/")
    then err prefix_empty
    else let inner = trim_end_matches is_slash key in
      if is_empty inner
      then err prefix_empty
      else if all valid_segment (split slash inner)
      then ok (inner ++ slash ∷ [])
      else err prefix_invalid_segment
