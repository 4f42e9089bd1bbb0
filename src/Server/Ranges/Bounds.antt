-- ===== src/Server/Ranges/Bounds.antt =====
-- src/server/s3_routes.rs: the Range header never reaches outside the file.
use my_s.Common.{
  Option, Option-cases, Text, [], arith, codes, false, inl, inr, nat_beq, none, some, split,
  strip_prefix, trim, ℕ, ◌<◌, ◌∷◌, ◌≡◌, ◌≤◌,
}
use my_s.Server.Ranges.{
  dash, first_part, parse_bytes_range, parse_u64, parse_unit, split_once, two_parts,
}

two_parts-bounds :
    (n : ℕ) (parts : Option (Text × Text)) (start stop : ℕ)
    → nat_beq n 0 ≡ false
    → two_parts n parts ≡ some (start, stop)
    → (start ≤ stop) × (stop < n)
two_parts-bounds n none start stop z h = ground arith
two_parts-bounds n (some (a, b)) start stop z h = elim (Option-cases (parse_u64 a)) [
  | inl e ↦ ground arith
  | inr (x, e) ↦ elim (Option-cases (parse_u64 b)) [
    | inl k ↦ ground arith
    | inr (y, k) ↦ ground arith
  ]
]

-- A range that `parse_bytes_range` accepts is not empty and ends before the end of the file.
pub parse_bytes_range-bounds :
    (range_val : Text) (file_len start stop : ℕ)
    → parse_bytes_range range_val file_len ≡ some (start, stop)
    → (start ≤ stop) × (stop < file_len)
unfolding parse_bytes_range
parse_bytes_range-bounds range_val n start stop h =
    elim (Option-cases (strip_prefix (codes "bytes=") (trim range_val))) [
      | inl e ↦ ground arith
      | inr (rest, e) ↦
          unit_bounds (trim (first_part (split 0x2c (trim rest)))) (ground (arith, h, e))
    ]
  where
    unit_bounds :
        (unit : Text) → parse_unit unit n ≡ some (start, stop) → (start ≤ stop) × (stop < n)
    unit_bounds unit k = elim (Option-cases (strip_prefix (dash ∷ []) unit)) [
      | inl e ↦ ground (arith, two_parts-bounds n (split_once dash unit) start stop)
      | inr (suffix, e) ↦ elim (Option-cases (parse_u64 suffix)) [
        | inl j ↦ ground arith
        | inr (m, j) ↦ ground arith
      ]
    ]
