-- ===== src/Server/Numbers.antt =====
-- Decimal numbers as `format!` prints them and `parse::<i64>` reads them, for src/server.
pub mod Printed
use my_s.Common.{
  Bool, Option, Text, [], codes, if◌then◌else◌, is_empty, leb, ltb, nat_beq, negsuc, none, pos,
  some, strip_prefix, suc, zero, ℕ, ℤ, ◌%◌, ◌+◌, ◌-◌, ◌/◌, ◌^◌, ◌∷◌,
}
use mathlib.Core.List.{reverse}
use my_s.Models.{i64_max}
use my_s.Server.Ranges.{parse_digits}

-- The decimal digits of a number, the last ones first; the fuel is more than their count.
unfoldable pub digits : ℕ → ℕ → Text
digits zero n = []
digits (suc fuel) n =
    let rest = digits fuel (n / 10) in (0x30 + n % 10) ∷ (if ltb n 10 then [] else rest)

unfoldable pub decimal : ℕ → Text
unfolding digits
decimal n = reverse (digits (suc n) n)

abbrev pub digits_value : Text → Option ℕ
digits_value s = if is_empty s then none else parse_digits 0 s

abbrev pub at_most_i64 : Option ℕ → Option ℤ
at_most_i64 none = none
at_most_i64 (some n) = if leb n i64_max then some (pos n) else none

abbrev negated : Option ℕ → Option ℤ
negated none = none
negated (some n) =
    if nat_beq n 0
    then some (pos 0)
    else if leb n (i64_max + 1)
    then some (negsuc (n - 1))
    else none

abbrev pub unsigned : Text → Option Text → Option ℤ
unsigned s (some rest) = at_most_i64 (digits_value rest)
unsigned s none = at_most_i64 (digits_value s)

-- `parse::<i64>().ok()`
unfoldable pub parse_i64 : Text → Option ℤ
parse_i64 s = elim (strip_prefix (codes "-") s) [
  | some rest ↦ negated (digits_value rest)
  | none ↦ unsigned s (strip_prefix (codes "+") s)
]
