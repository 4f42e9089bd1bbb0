-- ===== src/Common/Strings.antt =====
-- Rust's `str` operations over lists of code points.
use Prim.Native.Nat.{ℕ}
use Prim.Native.Char.{code}
use Prim.Native.String.{String}
use mathlib.Core.Bool.{Bool, true, false, ◌&&◌, ◌||◌}
use mathlib.Core.Option.{Option, none, some}
use mathlib.Core.List.{List, [], ◌∷◌, ◌++◌, reverse}
use my_s.Common.Tests.{Text, leb, nat_beq, if◌then◌else◌}

abbrev pub codes : String → Text
codes String.[] = []
codes (String.◌∷◌ c s) = code c ∷ codes s

-- `char::is_whitespace`: the code points with the property White_Space.
unfoldable pub is_whitespace : ℕ → Bool
is_whitespace c =
    (leb 0x09 c && leb c 0x0d)
    || nat_beq c 0x20
    || nat_beq c 0x85
    || nat_beq c 0xa0
    || nat_beq c 0x1680
    || (leb 0x2000 c && leb c 0x200a)
    || nat_beq c 0x2028
    || nat_beq c 0x2029
    || nat_beq c 0x202f
    || nat_beq c 0x205f
    || nat_beq c 0x3000

-- `trim_start_matches(p)` for a test on characters
unfoldable pub trim_start_matches : (ℕ → Bool) → Text → Text
trim_start_matches p [] = []
trim_start_matches p (c ∷ s) = let rest = trim_start_matches p s in if p c then rest else c ∷ s

unfoldable pub trim_end_matches : (ℕ → Bool) → Text → Text
trim_end_matches p s = reverse (trim_start_matches p (reverse s))

-- `trim`
unfoldable pub trim : Text → Text
unfolding trim_start_matches trim_end_matches is_whitespace
trim s = trim_end_matches is_whitespace (trim_start_matches is_whitespace s)

abbrev pub is_empty : Text → Bool
is_empty [] = true
is_empty (_ ∷ _) = false

abbrev pub slash : ℕ
slash = 0x2f

abbrev cons_head : ℕ → List Text → List Text
cons_head c [] = (c ∷ []) ∷ []
cons_head c (w ∷ ws) = (c ∷ w) ∷ ws

-- `split(d)` for a character: one part more than there are separators, so never none.
unfoldable pub split : ℕ → Text → List Text
split d [] = [] ∷ []
split d (c ∷ s) = let rest = split d s in if nat_beq c d then [] ∷ rest else cons_head c rest

unfoldable pub starts_with : Text → Text → Bool
starts_with [] s = true
starts_with (c ∷ p) [] = false
starts_with (c ∷ p) (d ∷ s) = nat_beq c d && starts_with p s

-- `s.strip_prefix(p)`
unfoldable pub strip_prefix : Text → Text → Option Text
strip_prefix [] s = some s
strip_prefix (c ∷ p) [] = none
strip_prefix (c ∷ p) (d ∷ s) = let rest = strip_prefix p s in if nat_beq c d then rest else none

unfoldable pub ends_with : Text → Text → Bool
unfolding starts_with
ends_with t s = starts_with (reverse t) (reverse s)

-- `all(p)` over an iterator
unfoldable pub all {ℓ} : {A : Type ℓ} → (A → Bool) → List A → Bool
all p [] = true
all p (x ∷ xs) = p x && all p xs

-- `contains(d)` for a character
unfoldable pub contains_char : ℕ → Text → Bool
contains_char d [] = false
contains_char d (c ∷ s) = nat_beq c d || contains_char d s

-- `s.contains(q)` for a text
unfoldable pub contains : Text → Text → Bool
unfolding starts_with
contains q [] = starts_with q []
contains q (c ∷ s) = starts_with q (c ∷ s) || contains q s

abbrev before_last : ℕ → ℕ → Text → Option (Text × Text) → Option (Text × Text)
before_last d c s none = if nat_beq c d then some ([], s) else none
before_last d c s (some (a, b)) = some (c ∷ a, b)

-- `rsplit_once(d)` for a character
unfoldable pub rsplit_once : ℕ → Text → Option (Text × Text)
rsplit_once d [] = none
rsplit_once d (c ∷ s) = before_last d c s (rsplit_once d s)

-- `join(separator)`
unfoldable pub join : ℕ → List Text → Text
join d [] = []
join d (w ∷ []) = w
join d (w ∷ v ∷ ws) = w ++ d ∷ join d (v ∷ ws)

abbrev pub dot : ℕ
dot = 0x2e
