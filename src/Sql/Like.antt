-- ===== src/Sql/Like.antt =====
-- The LIKE operator as SQLite documents it, and `like_escape` of src/db/repository.rs and
-- src/db/shares.rs. `%` stands for any run, `_` for one character, a character behind the escape
-- character for itself, any other character for itself without regard to ASCII case.
pub mod Escape
use my_s.Common.{
  ℕ, ◌+◌, Bool, true, false, ◌&&◌, ◌||◌, Option, none, some, List, [], ◌∷◌, ◌++◌, map, Text, codes,
  leb, nat_beq, compared_ids, opt_beq, if◌then◌else◌, is_empty,
}

abbrev pub percent : ℕ
percent = 0x25

abbrev pub underscore : ℕ
underscore = 0x5f

abbrev pub backslash : ℕ
backslash = 0x5c

-- ASCII letters in lower case.
unfoldable pub fold_case : ℕ → ℕ
fold_case c = if leb 0x41 c && leb c 0x5a then c + 32 else c

pub data Token : Type 0 where
  any_run any_one never : Token
  literal : ℕ → Token

-- A pattern that ends in the escape character matches nothing. The first argument is the escape
-- character, the second tells whether it has just been read.
unfoldable pub compile : Option ℕ → Bool → Text → List Token
compile escape true [] = never ∷ []
compile escape false [] = []
compile escape true (c ∷ p) = literal c ∷ compile escape false p
compile escape false (c ∷ p) =
    let escaped = compile escape true p in
    let rest = compile escape false p in
    if opt_beq escape c
    then escaped
    else if nat_beq c percent
    then any_run ∷ rest
    else if nat_beq c underscore
    then any_one ∷ rest
    else literal c ∷ rest

unfoldable pub match_run : (Text → Bool) → Text → Bool
match_run k [] = k []
match_run k (c ∷ s) = k (c ∷ s) || match_run k s

unfoldable pub match_one : (ℕ → Bool) → (Text → Bool) → Text → Bool
match_one p k [] = false
match_one p k (c ∷ s) = p c && k s

unfoldable pub matches : List Token → Text → Bool
unfolding match_run match_one fold_case
matches [] s = is_empty s
matches (any_run ∷ ts) s = match_run (matches ts) s
matches (any_one ∷ ts) s = match_one (λ _. true) (matches ts) s
matches (never ∷ ts) s = false
matches (literal c ∷ ts) s = match_one (λ d. nat_beq (fold_case c) (fold_case d)) (matches ts) s

-- `s LIKE pattern`, or `s LIKE pattern ESCAPE e`
unfoldable pub like : Option ℕ → Text → Text → Bool
unfolding compile matches
like escape pattern s = matches (compile escape false pattern) s

-- `s.replace(c, by)` for a character
unfoldable pub replace : ℕ → Text → Text → Text
replace c by [] = []
replace c by (d ∷ s) = (if nat_beq d c then by else d ∷ []) ++ replace c by s

unfoldable pub like_escape : Text → Text
unfolding replace
like_escape s =
    replace underscore (codes "\\_")
      (replace percent (codes "\\%") (replace backslash (codes "\\\\") s))
