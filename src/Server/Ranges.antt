-- ===== src/Server/Ranges.antt =====
-- src/server/s3_routes.rs: the Range header.
pub mod Bounds
use my_s.Common.{
  Bool, List, Option, Text, [], codes, if◌then◌else◌, is_empty, leb, ltb, min, nat_beq, none, some,
  split, strip_prefix, trim, ℕ, ◌&&◌, ◌*◌, ◌+◌, ◌-◌, ◌^◌, ◌∷◌,
}

abbrev pub u64_max : ℕ
u64_max = 2 ^ 64 - 1

abbrev pub is_digit : ℕ → Bool
is_digit c = leb 0x30 c && leb c 0x39

-- The value of the digits, or none for another character or from `u64_max` on.
unfoldable pub parse_digits : ℕ → Text → Option ℕ
parse_digits n [] = some n
parse_digits n (c ∷ s) =
    let next = n * 10 + (c - 0x30) in
    let rest = parse_digits next s in if is_digit c && leb next u64_max then rest else none

abbrev strip_plus : Text → Text
strip_plus s = elim (strip_prefix (codes "+") s) [ none ↦ s | some t ↦ t ]

-- `parse::<u64>().ok()`: one `+` is allowed, and there must be a digit.
unfoldable pub parse_u64 : Text → Option ℕ
parse_u64 s = if is_empty (strip_plus s) then none else parse_digits 0 (strip_plus s)

abbrev cons_first : ℕ → Option (Text × Text) → Option (Text × Text)
cons_first c none = none
cons_first c (some (s, t)) = some (c ∷ s, t)

-- `split_once(d)` for a character
unfoldable pub split_once : ℕ → Text → Option (Text × Text)
split_once d [] = none
split_once d (c ∷ s) =
    let rest = split_once d s in if nat_beq c d then some ([], s) else cons_first c rest

abbrev pub first_part : List Text → Text
first_part [] = []
first_part (w ∷ ws) = w

abbrev pub dash : ℕ
dash = 0x2d

-- `-n`: the last n bytes
abbrev pub suffix_range : ℕ → Option ℕ → Option (ℕ × ℕ)
suffix_range file_len none = none
suffix_range file_len (some n) =
    if nat_beq n 0 then none else some (file_len - min n file_len, file_len - 1)

abbrev range_end : Text → ℕ → Option ℕ
range_end end_s file_len =
    if is_empty end_s
    then some (file_len - 1)
    else elim (parse_u64 end_s) [ none ↦ none | some n ↦ some (min n (file_len - 1)) ]

abbrev to_end : ℕ → Option ℕ → Option (ℕ × ℕ)
to_end start none = none
to_end start (some stop) = if ltb stop start then none else some (start, stop)

-- `start-end` or `start-`
abbrev from_start : ℕ → Text → Option ℕ → Option (ℕ × ℕ)
from_start file_len end_s none = none
from_start file_len end_s (some start) =
    if leb file_len start then none else to_end start (range_end end_s file_len)

abbrev pub two_parts : ℕ → Option (Text × Text) → Option (ℕ × ℕ)
two_parts file_len none = none
two_parts file_len (some (start_s, end_s)) = from_start file_len end_s (parse_u64 start_s)

abbrev pub parse_unit : Text → ℕ → Option (ℕ × ℕ)
parse_unit unit file_len =
    if nat_beq file_len 0 then none else elim (strip_prefix (dash ∷ []) unit) [
      | some suffix ↦ suffix_range file_len (parse_u64 suffix)
      | none ↦ two_parts file_len (split_once dash unit)
    ]

unfoldable pub parse_bytes_range : Text → ℕ → Option (ℕ × ℕ)
parse_bytes_range range_val file_len = elim (strip_prefix (codes "bytes=") (trim range_val)) [
  | none ↦ none
  | some rest ↦ parse_unit (trim (first_part (split 0x2c (trim rest)))) file_len
]
