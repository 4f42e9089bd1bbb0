-- ===== src/Server/Numbers/Printed.antt =====
-- Printed numbers are read back, and are plain digits.
use my_s.Common.{
  Bool, Bool-cases, List, Text, [], all, ap, arith, false, inl, inr, is_empty, leb, ltb, none, pos,
  refl, some, strip_prefix, suc, sym, true, zero, ℕ, ◌&&◌, ◌%◌, ◌*◌, ◌+◌, ◌++◌, ◌-◌, ◌/◌, ◌<◌, ◌≤◌,
  ◌∙◌, ◌∷◌, ◌≡◌,
}
use mathlib.Core.List.{append_assoc, append-nil, reverse, reverse-append}
use my_s.Keys.Segments.{all-append}
use my_s.Models.{i64_max}
use my_s.Server.Numbers.{decimal, digits, parse_i64}
use my_s.Server.Ranges.{is_digit, parse_digits, u64_max}

parse_digits-step :
    (n d m : ℕ) (rest : Text)
    → d < 10
    → n * 10 + d ≡ m
    → m ≤ u64_max
    → parse_digits n ((0x30 + d) ∷ rest) ≡ parse_digits m rest
unfolding parse_digits
parse_digits-step n d m rest h e k =
    let s : 0x30 + d - 0x30 ≡ d = omega arith in
    let t : (is_digit (0x30 + d) && leb m u64_max) ≡ true = ground arith in rw (s, e, t) refl

-- Reading the digits of a number and then the rest is reading the rest on top of the number.
parse_digits-digits :
    (fuel n : ℕ) (rest : Text)
    → n < fuel
    → n ≤ u64_max
    → parse_digits 0 (reverse (digits fuel n) ++ rest) ≡ parse_digits n rest
unfolding digits
parse_digits-digits zero n rest h k = absurd (omega arith)
parse_digits-digits (suc fuel) n rest h k = elim (Bool-cases (ltb n 10)) [
  | inl e ↦ rw e (parse_digits-step 0 (n % 10) n rest (omega arith) (ground arith) k)
  | inr e ↦
      rw
        (
          e,
          reverse-append ((0x30 + n % 10) ∷ []) (digits fuel (n / 10)),
          append_assoc (reverse (digits fuel (n / 10))) ((0x30 + n % 10) ∷ []) rest,
        )
        (parse_digits-digits fuel (n / 10) ((0x30 + n % 10) ∷ rest) (ground arith) (omega arith)
          ∙ parse_digits-step (n / 10) (n % 10) n rest (omega arith) (omega arith) k)
]

pub all-reverse : {A : Type 0} (p : A → Bool) (xs : List A) → all p (reverse xs) ≡ all p xs
unfolding all
all-reverse p [] = refl
all-reverse p (x ∷ xs) =
    rw (reverse-append (x ∷ []) xs)
      (all-append p (reverse xs) (x ∷ []) ∙ ground (arith, all-reverse p xs))

all-digits :
    (p : ℕ → Bool) (fuel n : ℕ)
    → ((d : ℕ) → d < 10 → p (0x30 + d) ≡ true)
    → all p (digits fuel n) ≡ true
unfolding all digits
all-digits p zero n h = refl
all-digits p (suc fuel) n h = ground (arith, h (n % 10) (omega arith), all-digits p fuel (n / 10) h)

-- What holds of every digit holds of the characters of a printed number.
pub all-decimal :
    (p : ℕ → Bool) (n : ℕ) → ((d : ℕ) → d < 10 → p (0x30 + d) ≡ true) → all p (decimal n) ≡ true
unfolding decimal
all-decimal p n h = all-reverse p (digits (suc n) n) ∙ all-digits p (suc n) n h

is_empty-last : (s : Text) (c : ℕ) → is_empty (s ++ c ∷ []) ≡ false
is_empty-last [] c = refl
is_empty-last (d ∷ s) c = refl

is_empty-decimal : (n : ℕ) → is_empty (decimal n) ≡ false
unfolding decimal digits
is_empty-decimal n = elim (Bool-cases (ltb n 10)) [
  | inl e ↦ rw e refl
  | inr e ↦
      rw (e, reverse-append ((0x30 + n % 10) ∷ []) (digits n (n / 10)))
        (is_empty-last (reverse (digits n (n / 10))) (0x30 + n % 10))
]

strip_prefix-sign :
    (sign : ℕ) (s : Text)
    → all is_digit s ≡ true
    → is_digit sign ≡ false
    → strip_prefix (sign ∷ []) s ≡ none
unfolding strip_prefix all
strip_prefix-sign sign [] h k = refl
strip_prefix-sign sign (c ∷ s) h k = ground arith

-- A printed number that fits is read back.
pub parse_i64-decimal : (n : ℕ) → n ≤ i64_max → parse_i64 (decimal n) ≡ some (pos n)
unfolding parse_i64
parse_i64-decimal n h =
    let d = all-decimal is_digit n (λ d k. ground arith) in
    let v : parse_digits 0 (decimal n) ≡ some n =
      unfold decimal parse_digits in
      ap (parse_digits 0) (sym (append-nil (decimal n)))
      ∙ parse_digits-digits (suc n) n [] (omega arith) (omega arith) in
    ground (
      arith,
      strip_prefix-sign 0x2d (decimal n) d refl,
      strip_prefix-sign 0x2b (decimal n) d refl,
      is_empty-decimal n,
      v,
    )
