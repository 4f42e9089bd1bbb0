-- ===== src/Common/Utf8.antt =====
-- Text as bytes: `as_bytes` and `String::from_utf8`, the UTF-8 encoding of a text and its decoding;
-- and the comparison of bytes without an early exit, in src/server/media_access.rs and
-- src/server/auth_sigv4.rs.
use Prim.Native.Nat.{
  ℕ, zero, suc, ◌+◌, ◌-◌, ◌*◌, ◌/◌, ◌%◌, ◌≤◌, ◌<◌, max, bit_or, bit_xor, digits, differ,
  bit_or-bitwise, bit_xor-bitwise,
}
use mathlib.Core.Path.{◌≡◌, refl, sym, ◌∙◌}
use mathlib.Core.Logic.{◌↔◌, inl, inr}
use mathlib.Core.Bool.{Bool, true, false, ◌&&◌, ◌||◌}
use mathlib.Core.Option.{Option, none, some}
use mathlib.Core.List.{List, [], ◌∷◌, ◌++◌}
use native.Mathlib.Omega.{arith}
use my_s.Common.Tests.{Bool-cases, Text, if◌then◌else◌, leb, ltb, nat_beq}
use my_s.Common.Lists.{All, length}

abbrev pub Bytes : Type 0
Bytes = List ℕ

-- A Unicode scalar value, as every `char` of Rust is.
unfoldable pub is_char : ℕ → Bool
is_char c = ltb c 0xd800 || (leb 0xe000 c && ltb c 0x110000)

unfoldable pub encode_char : ℕ → Bytes
encode_char c =
    if ltb c 0x80
    then c ∷ []
    else if ltb c 0x800
    then (0xc0 + c / 64) ∷ (0x80 + c % 64) ∷ []
    else if ltb c 0x10000
    then (0xe0 + c / 4096) ∷ (0x80 + c / 64 % 64) ∷ (0x80 + c % 64) ∷ []
    else (0xf0 + c / 262144) ∷ (0x80 + c / 4096 % 64) ∷ (0x80 + c / 64 % 64) ∷ (0x80 + c % 64) ∷ []

unfoldable pub as_bytes : Text → Bytes
unfolding encode_char
as_bytes [] = []
as_bytes (c ∷ s) = encode_char c ++ as_bytes s

abbrev pub cons_char : ℕ → Option Text → Option Text
cons_char c none = none
cons_char c (some s) = some (c ∷ s)

abbrev is_continuation : ℕ → Bool
is_continuation b = leb 0x80 b && ltb b 0xc0

-- The decoder: how many continuation bytes are still to come, the value so far, and the least
-- value that needs that many bytes.
unfoldable pub decode : ℕ → ℕ → ℕ → Bytes → Option Text
unfolding is_char
decode zero acc least [] = some []
decode (suc k) acc least [] = none
decode zero acc least (b ∷ bs) =
    let one = decode zero 0 0 bs in
    let two = decode 1 (b - 0xc0) 0x80 bs in
    let three = decode 2 (b - 0xe0) 0x800 bs in
    let four = decode 3 (b - 0xf0) 0x10000 bs in
    if ltb b 0x80
    then cons_char b one
    else if ltb b 0xc0
    then none
    else if ltb b 0xe0
    then two
    else if ltb b 0xf0
    then three
    else if ltb b 0xf8
    then four
    else none
decode (suc zero) acc least (b ∷ bs) =
    let rest = decode zero 0 0 bs in
    let c = acc * 64 + (b - 0x80) in
    if is_continuation b && (leb least c && is_char c) then cons_char c rest else none
decode (suc (suc k)) acc least (b ∷ bs) =
    let rest = decode (suc k) (acc * 64 + (b - 0x80)) least bs in
    if is_continuation b then rest else none

unfoldable pub from_utf8 : Bytes → Option Text
unfolding decode
from_utf8 bytes = decode 0 0 0 bytes

decode-lead_two :
    (a : ℕ) (bs : Bytes) → a < 32 → decode 0 0 0 ((0xc0 + a) ∷ bs) ≡ decode 1 a 0x80 bs
unfolding decode
decode-lead_two a bs h =
    let e : 0xc0 + a - 0xc0 ≡ a = omega arith in
    let t0 : ltb (0xc0 + a) 0x80 ≡ false = ground arith in
    let t1 : ltb (0xc0 + a) 0xc0 ≡ false = ground arith in
    let t2 : ltb (0xc0 + a) 0xe0 ≡ true = ground arith in rw (e, t0, t1, t2) refl

decode-lead_three :
    (a : ℕ) (bs : Bytes) → a < 16 → decode 0 0 0 ((0xe0 + a) ∷ bs) ≡ decode 2 a 0x800 bs
unfolding decode
decode-lead_three a bs h =
    let e : 0xe0 + a - 0xe0 ≡ a = omega arith in
    let t0 : ltb (0xe0 + a) 0x80 ≡ false = ground arith in
    let t1 : ltb (0xe0 + a) 0xc0 ≡ false = ground arith in
    let t2 : ltb (0xe0 + a) 0xe0 ≡ false = ground arith in
    let t3 : ltb (0xe0 + a) 0xf0 ≡ true = ground arith in rw (e, t0, t1, t2, t3) refl

decode-lead_four :
    (a : ℕ) (bs : Bytes) → a < 8 → decode 0 0 0 ((0xf0 + a) ∷ bs) ≡ decode 3 a 0x10000 bs
unfolding decode
decode-lead_four a bs h =
    let e : 0xf0 + a - 0xf0 ≡ a = omega arith in
    let t0 : ltb (0xf0 + a) 0x80 ≡ false = ground arith in
    let t1 : ltb (0xf0 + a) 0xc0 ≡ false = ground arith in
    let t2 : ltb (0xf0 + a) 0xe0 ≡ false = ground arith in
    let t3 : ltb (0xf0 + a) 0xf0 ≡ false = ground arith in
    let t4 : ltb (0xf0 + a) 0xf8 ≡ true = ground arith in rw (e, t0, t1, t2, t3, t4) refl

decode_next :
    (k acc least y : ℕ) (bs : Bytes)
    → y < 64
    → decode (suc (suc k)) acc least ((0x80 + y) ∷ bs) ≡ decode (suc k) (acc * 64 + y) least bs
unfolding decode
decode_next k acc least y bs h = let e : 0x80 + y - 0x80 ≡ y = omega arith in rw e (ground arith)

decode_last :
    (acc least y c : ℕ) (bs : Bytes)
    → y < 64
    → acc * 64 + y ≡ c
    → least ≤ c
    → is_char c ≡ true
    → decode 1 acc least ((0x80 + y) ∷ bs) ≡ cons_char c (decode 0 0 0 bs)
unfolding decode
decode_last acc least y c bs h e l v =
    let d : 0x80 + y - 0x80 ≡ y = omega arith in rw (d, e) (ground arith)

char-bound : (c : ℕ) → is_char c ≡ true → c < 0x110000
unfolding is_char
char-bound c h = ground arith

decode-encode_char :
    (c : ℕ) (rest : Bytes)
    → is_char c ≡ true
    → decode 0 0 0 (encode_char c ++ rest) ≡ cons_char c (decode 0 0 0 rest)
unfolding encode_char
decode-encode_char c rest h = elim (Bool-cases (ltb c 0x80)) [
  | inl e ↦ rw e (unfold decode in ground arith)
  | inr e ↦ elim (Bool-cases (ltb c 0x800)) [
    | inl f ↦
        rw (e, f)
          (decode-lead_two (c / 64) _ (ground arith)
            ∙ decode_last (c / 64) 0x80 (c % 64) c rest (omega arith) (omega arith) (ground arith)
                h)
    | inr f ↦ elim (Bool-cases (ltb c 0x10000)) [
      | inl g ↦
          rw (e, f, g)
            (decode-lead_three (c / 4096) _ (ground arith)
              ∙ decode_next 0 (c / 4096) 0x800 (c / 64 % 64) _ (omega arith)
              ∙ decode_last (c / 4096 * 64 + c / 64 % 64) 0x800 (c % 64) c rest (omega arith)
                  (omega arith) (ground arith) h)
      | inr g ↦
          rw (e, f, g)
            (decode-lead_four (c / 262144) _ (omega (arith, char-bound c h))
              ∙ decode_next 1 (c / 262144) 0x10000 (c / 4096 % 64) _ (omega arith)
              ∙ decode_next 0 (c / 262144 * 64 + c / 4096 % 64) 0x10000 (c / 64 % 64) _
                  (omega arith)
              ∙ decode_last ((c / 262144 * 64 + c / 4096 % 64) * 64 + c / 64 % 64) 0x10000 (c % 64)
                  c rest (omega arith) (omega arith) (ground arith) h)
    ]
  ]
]

-- What `as_bytes` gives is decoded to the text.
pub from_utf8-as_bytes :
    (s : Text) → All (λ c. is_char c ≡ true) s → from_utf8 (as_bytes s) ≡ some s
unfolding from_utf8 as_bytes
from_utf8-as_bytes [] h = unfold decode in refl
from_utf8-as_bytes (c ∷ s) h =
    decode-encode_char c (as_bytes s) h.0 ∙ ground (arith, from_utf8-as_bytes s h.1)

-- The loop over the pairs of bytes, with what it has collected.
unfoldable pub differences : ℕ → Bytes → Bytes → ℕ
differences acc [] bs = acc
differences acc (a ∷ as') [] = acc
differences acc (a ∷ as') (b ∷ bs) = differences (bit_or acc (bit_xor a b)) as' bs

unfoldable pub constant_time_eq : Bytes → Bytes → Bool
unfolding differences
constant_time_eq a b = nat_beq (length a) (length b) && nat_beq (differences 0 a b) 0

or_digits-zero : (n a b : ℕ) → a ≤ n → digits (λ b. b) max n a b ≡ 0 → (a ≡ 0) × (b ≡ 0)
or_digits-zero zero a b h e = omega arith
or_digits-zero (suc n) zero b h e = omega arith
or_digits-zero (suc n) (suc a) b h e =
    let (p, q) = or_digits-zero n (suc a / 2) (b / 2) (omega arith) (omega arith) in
    (absurd (omega arith), absurd (omega arith))

pub bit_or-zero : (a b : ℕ) → bit_or a b ≡ 0 → (a ≡ 0) × (b ≡ 0)
bit_or-zero a b h = or_digits-zero a a b (omega arith) (sym (bit_or-bitwise a b) ∙ h)

differ-zero : (x y : ℕ) → differ x y ≡ 0 → x ≡ y
differ-zero zero y h = sym h
differ-zero (suc x) zero h = h
differ-zero (suc x) (suc y) h = omega (arith, differ-zero x y h)

differ_self : (x : ℕ) → differ x x ≡ 0
differ_self zero = refl
differ_self (suc x) = differ_self x

xor_digits-zero : (n a b : ℕ) → a ≤ n → digits (λ b. b) differ n a b ≡ 0 → a ≡ b
xor_digits-zero zero a b h e = omega arith
xor_digits-zero (suc n) zero b h e = omega arith
xor_digits-zero (suc n) (suc a) b h e =
    let p = xor_digits-zero n (suc a / 2) (b / 2) (omega arith) (omega arith) in
    let q = differ-zero (suc a % 2) (b % 2) (omega arith) in omega arith

xor_digits_self : (n a : ℕ) → a ≤ n → digits (λ b. b) differ n a a ≡ 0
xor_digits_self zero a h = omega arith
xor_digits_self (suc n) zero h = refl
xor_digits_self (suc n) (suc a) h =
    omega (arith, xor_digits_self n (suc a / 2) (omega arith), differ_self (suc a % 2))

pub bit_xor-zero : (a b : ℕ) → bit_xor a b ≡ 0 → a ≡ b
bit_xor-zero a b h = xor_digits-zero a a b (omega arith) (sym (bit_xor-bitwise a b) ∙ h)

pub bit_xor_self : (a : ℕ) → bit_xor a a ≡ 0
bit_xor_self a = bit_xor-bitwise a a ∙ xor_digits_self a a (omega arith)

differences-zero :
    (acc : ℕ) (a b : Bytes) → length a ≡ length b → differences acc a b ≡ 0 → (acc ≡ 0) × (a ≡ b)
unfolding differences
differences-zero acc [] [] h e = (e, refl)
differences-zero acc [] (b ∷ bs) h e = absurd (omega arith)
differences-zero acc (a ∷ as') [] h e = absurd (omega arith)
differences-zero acc (a ∷ as') (b ∷ bs) h e =
    let (p, q) = differences-zero (bit_or acc (bit_xor a b)) as' bs (omega arith) e in
    let (r, s) = bit_or-zero acc (bit_xor a b) p in let t = bit_xor-zero a b s in (r, cc)

differences_self : (a : Bytes) → differences 0 a a ≡ 0
unfolding differences
differences_self [] = refl
differences_self (a ∷ as') = rw bit_xor_self (differences_self as')

-- The comparison without an early exit tells whether the bytes are the same.
pub constant_time_eq_iff : (a b : Bytes) → (constant_time_eq a b ≡ true) ↔ (a ≡ b)
unfolding constant_time_eq
constant_time_eq_iff a b = (
  λ h. (differences-zero 0 a b (ground arith) (ground arith)).1,
  λ e. rw e (ground (arith, differences_self b)),
)
