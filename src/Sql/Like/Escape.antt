-- ===== src/Sql/Like/Escape.antt =====
-- `like_escape` in the patterns that the queries build from it.
use mathlib.Core.List.{append_assoc}
use my_s.Common.{
  Text, [], ap, arith, codes, contains, false, if◌then◌else◌, map, nat_beq, refl, some, starts_with,
  true, ℕ, ◌&&◌, ◌++◌, ◌∙◌, ◌∷◌, ◌≡◌,
}
use my_s.Sql.Like.{
  any_run, backslash, compile, fold_case, like, like_escape, literal, match_run, matches, percent,
  underscore,
}

-- A text with its ASCII letters in lower case.
abbrev pub lower : Text → Text
lower = map fold_case

escape_char : ℕ → Text
escape_char c =
    if nat_beq c backslash
    then codes "\\\\"
    else if nat_beq c percent
    then codes "\\%"
    else if nat_beq c underscore
    then codes "\\_"
    else c ∷ []

like_escape-cons : (c : ℕ) (s : Text) → like_escape (c ∷ s) ≡ escape_char c ++ like_escape s
unfolding like_escape escape_char
like_escape-cons c s = ground arith

compile-escape_char :
    (c : ℕ) (p : Text)
    → compile (some backslash) false (escape_char c ++ p)
      ≡ literal c ∷ compile (some backslash) false p
unfolding compile escape_char
compile-escape_char c p = ground arith

-- An escaped text compiles to itself, character by character.
compile-like_escape :
    (s p : Text)
    → compile (some backslash) false (like_escape s ++ p)
      ≡ map literal s ++ compile (some backslash) false p
compile-like_escape [] p = unfold like_escape in refl
compile-like_escape (c ∷ s) p =
    rw (like_escape-cons, append_assoc, compile-escape_char, compile-like_escape s p)

match_run-nil : (s : Text) → match_run (matches []) s ≡ true
unfolding matches
match_run-nil [] = refl
match_run-nil (c ∷ s) = match_run-nil s

matches-literals :
    (p s : Text) → matches (map literal p ++ any_run ∷ []) s ≡ starts_with (lower p) (lower s)
unfolding matches starts_with
matches-literals [] s = match_run-nil s
matches-literals (c ∷ p) [] = refl
matches-literals (c ∷ p) (d ∷ s) =
    ap (λ b. nat_beq (fold_case c) (fold_case d) && b) (matches-literals p s)

compile-percent : compile (some backslash) false (percent ∷ []) ≡ any_run ∷ []
unfolding compile
compile-percent = refl

-- The pattern that the queries build from a prefix, `like_escape(prefix)` with `%` behind it,
-- matches exactly the texts that start with the prefix when ASCII case is ignored, whatever
-- special characters the prefix holds.
pub like-like_escape :
    (prefix s : Text)
    → like (some backslash) (like_escape prefix ++ percent ∷ []) s
      ≡ starts_with (lower prefix) (lower s)
unfolding like
like-like_escape prefix s = rw (compile-like_escape, compile-percent) (matches-literals prefix s)

match_run-literals :
    (q s : Text)
    → match_run (matches (map literal q ++ any_run ∷ [])) s ≡ contains (lower q) (lower s)
unfolding contains match_run
match_run-literals q [] = matches-literals q []
match_run-literals q (c ∷ s) = ground (arith, matches-literals q (c ∷ s), match_run-literals q s)

-- The pattern of the search, `%` on both sides of `like_escape(q)`, matches exactly the texts that
-- contain the query when ASCII case is ignored.
pub like-like_escape_search :
    (q s : Text)
    → like (some backslash) (percent ∷ (like_escape q ++ percent ∷ [])) s
      ≡ contains (lower q) (lower s)
unfolding like
like-like_escape_search q s =
    ap (λ ts. matches ts s) compile-search ∙ unfold matches in match_run-literals q s
  where
    compile-search :
        compile (some backslash) false (percent ∷ (like_escape q ++ percent ∷ []))
        ≡ any_run ∷ (map literal q ++ any_run ∷ [])
    compile-search =
        unfold compile in ap (λ ts. any_run ∷ ts) (compile-like_escape q (percent ∷ []))
