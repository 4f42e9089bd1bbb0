-- ===== src/Config/Paths.antt =====
-- src/config.rs: storage paths. A path is what the standard library's `components` gives for it.
pub mod Normal
use my_s.Common.{
  Bool, List, Text, [], codes, false, if◌then◌else◌, inl, inr, is_empty, map, nat_beq, slash, split,
  text_beq, trim, true, ◌++◌, ◌∷◌, ◌⊎◌,
}

pub data Component : Type 0 where
  root_dir cur_dir parent_dir : Component
  normal : Text → Component

-- A path that was built by `push` and `pop`: whether it starts at the root, and its names.
pub record PathBuf : Type 0 where
  pub is_absolute : Bool
  pub names : List Text

-- `Path::components` leaves empty parts out; it leaves `.` out too but at the start of a path.
unfoldable pub part_components : List Text → List Component
part_components [] = []
part_components (t ∷ ts) =
    let rest = part_components ts in
    if is_empty t
    then rest
    else if text_beq t (codes ".")
    then cur_dir ∷ rest
    else if text_beq t (codes "..")
    then parent_dir ∷ rest
    else normal t ∷ rest

unfoldable pub components : Text → List Component
unfolding part_components
components [] = []
components (c ∷ s) =
    let rest = part_components (split slash (c ∷ s)) in
    if nat_beq c slash then root_dir ∷ rest else rest

abbrev pub root_or_none : Bool → List Component
root_or_none true = root_dir ∷ []
root_or_none false = []

unfoldable pub components_of : PathBuf → List Component
components_of p = root_or_none p.is_absolute ++ map normal p.names

unfoldable pub but_last : List Text → List Text
but_last [] = []
but_last (n ∷ []) = []
but_last (n ∷ m ∷ ns) = n ∷ but_last (m ∷ ns)

abbrev pub normalize_step : Component → PathBuf → PathBuf
normalize_step root_dir out = record { is_absolute = true; names = [] }
normalize_step cur_dir out = out
normalize_step parent_dir out = record out { names = but_last out.names }
normalize_step (normal n) out = record out { names = out.names ++ n ∷ [] }

unfoldable pub normalize_onto : List Component → PathBuf → PathBuf
normalize_onto [] out = out
normalize_onto (c ∷ cs) out = normalize_onto cs (normalize_step c out)

unfoldable pub normalize_path : List Component → PathBuf
normalize_path cs = normalize_onto cs (record { is_absolute = false; names = [] })

abbrev pub is_absolute_text : Text → Bool
is_absolute_text [] = false
is_absolute_text (c ∷ s) = nat_beq c slash

pub data PathError : Type 0 where
  path_required : PathError

-- `current_dir` is the working directory, an absolute path.
unfoldable pub resolve_storage_path : PathBuf → Text → PathError ⊎ PathBuf
resolve_storage_path current_dir input =
    let trimmed = trim input in
    if is_empty trimmed
    then inl path_required
    else inr (
        normalize_path (
          if is_absolute_text trimmed
          then components trimmed
          else components_of current_dir ++ components trimmed))
