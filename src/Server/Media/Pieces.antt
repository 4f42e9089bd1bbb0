-- ===== src/Server/Media/Pieces.antt =====
-- src/server/media_access.rs: the parts of a token, which hold no dot and no white space.
use my_s.Common.{
  Bool, Option, Text, [], all, ap, arith, contains_char, dot, false, is_empty, is_whitespace,
  nat_beq, none, not, refl, rsplit_once, some, trim, trim_end_matches, trim_start_matches, true, ℕ,
  ◌&&◌, ◌++◌, ◌∙◌, ◌∷◌, ◌≡◌,
}
use mathlib.Core.List.{reverse, reverse-reverse}
use my_s.Keys.Segments.{all-append}
use my_s.Server.Numbers.{decimal}
use my_s.Server.Numbers.Printed.{all-decimal, all-reverse}

abbrev pub is_plain : ℕ → Bool
is_plain c = not (is_whitespace c) && not (nat_beq c dot)

abbrev pub no_space : ℕ → Bool
no_space c = not (is_whitespace c)

pub all_implied :
    (p q : ℕ → Bool) (s : Text)
    → ((c : ℕ) → p c ≡ true → q c ≡ true)
    → all p s ≡ true
    → all q s ≡ true
unfolding all
all_implied p q [] h k = refl
all_implied p q (c ∷ s) h k = ground (arith, h c, all_implied p q s h)

trim_start_matches-all :
    (p : ℕ → Bool) (s : Text) → all (λ c. not (p c)) s ≡ true → trim_start_matches p s ≡ s
unfolding trim_start_matches all
trim_start_matches-all p [] h = refl
trim_start_matches-all p (c ∷ s) h = ground arith

-- A text without white space is trimmed already.
pub trim-all : (s : Text) → all no_space s ≡ true → trim s ≡ s
unfolding trim trim_end_matches
trim-all s h =
    ap (trim_end_matches is_whitespace) (trim_start_matches-all is_whitespace s h)
    ∙ ap reverse (trim_start_matches-all is_whitespace (reverse s) (all-reverse no_space s ∙ h))
    ∙ reverse-reverse s

rsplit_once-none : (d : ℕ) (s : Text) → contains_char d s ≡ false → rsplit_once d s ≡ none
unfolding rsplit_once contains_char
rsplit_once-none d [] h = refl
rsplit_once-none d (c ∷ s) h = ground (arith, rsplit_once-none d s)

-- The last separator is the one before a text without separators.
pub rsplit_once-append :
    (d : ℕ) (s t : Text) → contains_char d t ≡ false → rsplit_once d (s ++ d ∷ t) ≡ some (s, t)
unfolding rsplit_once
rsplit_once-append d [] t h = ground (arith, rsplit_once-none d t h)
rsplit_once-append d (c ∷ s) t h = ground (arith, rsplit_once-append d s t h)

pub rsplit_once-some : (d : ℕ) (s a b : Text) → rsplit_once d s ≡ some (a, b) → s ≡ a ++ d ∷ b
unfolding rsplit_once
rsplit_once-some d [] a b h = cc
rsplit_once-some d (c ∷ s) a b h = go (rsplit_once d s) refl (rsplit_once-some d s)
  where
    go :
        (o : Option (Text × Text))
        → rsplit_once d s ≡ o
        → ((x y : Text) → rsplit_once d s ≡ some (x, y) → s ≡ x ++ d ∷ y)
        → (c ∷ s) ≡ a ++ d ∷ b
    go none e ih = ground (arith, e)
    go (some (x, y)) e ih = ground (arith, e, ih x y e)

contains_char-all :
    (d : ℕ) (p : ℕ → Bool) (s : Text) → p d ≡ false → all p s ≡ true → contains_char d s ≡ false
unfolding contains_char all
contains_char-all d p [] h k = refl
contains_char-all d p (c ∷ s) h k = ground (arith, contains_char-all d p s h)

pub contains_char-is_plain : (s : Text) → all is_plain s ≡ true → contains_char dot s ≡ false
unfolding is_whitespace
contains_char-is_plain s h = contains_char-all dot is_plain s refl h

pub is_plain-decimal : (n : ℕ) → all is_plain (decimal n) ≡ true
unfolding is_whitespace
is_plain-decimal n = all-decimal is_plain n (λ d k. ground arith)

pub no_space_joined :
    (s t : Text)
    → all no_space s ≡ true
    → all no_space t ≡ true
    → all no_space (s ++ dot ∷ t) ≡ true
no_space_joined s t h k =
    all-append no_space s (dot ∷ t) ∙ unfold all in unfold is_whitespace in ground arith

pub is_empty-joined : (s t : Text) → is_empty (s ++ dot ∷ t) ≡ false
is_empty-joined [] t = refl
is_empty-joined (c ∷ s) t = refl

pub no_space_plain : (s : Text) → all is_plain s ≡ true → all no_space s ≡ true
no_space_plain s h = all_implied is_plain no_space s (λ c e. ground arith) h
