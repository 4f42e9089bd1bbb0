-- ===== src/Server/S3/Escaped.antt =====
-- src/server/s3_routes.rs: text in the XML of a listing.
use my_s.Common.{
  Bool, Text, [], ap, arith, codes, contains_char, false, if◌then◌else◌, nat_beq, refl, starts_with,
  suc, true, zero, ℕ, ◌++◌, ◌∙◌, ◌||◌, ◌∷◌, ◌≡◌,
}
use my_s.Server.S3.{xml_escape}

-- What a parser of XML makes of the character data: a reference to one of the four characters is read
-- as the character. `skip` counts the characters of a reference that has been read.
unescape : ℕ → Text → Text
unescape skip [] = []
unescape (suc skip) (c ∷ s) = unescape skip s
unescape zero (c ∷ s) =
    let amp = unescape 4 s in
    let lt = unescape 3 s in
    let quot = unescape 5 s in
    let plain = unescape 0 s in
    if nat_beq c 0x26
    then (if starts_with (codes "amp;") s
        then 0x26 ∷ amp
        else if starts_with (codes "lt;") s
        then 0x3c ∷ lt
        else if starts_with (codes "gt;") s
        then 0x3e ∷ lt
        else if starts_with (codes "quot;") s
        then 0x22 ∷ quot
        else c ∷ plain)
    else c ∷ plain

unfoldable pub xml_unescape : Text → Text
unfolding unescape starts_with
xml_unescape s = unescape 0 s

abbrev escape_char : ℕ → Text
escape_char c =
    if nat_beq c 0x26
    then codes "&amp;"
    else if nat_beq c 0x3c
    then codes "&lt;"
    else if nat_beq c 0x3e
    then codes "&gt;"
    else if nat_beq c 0x22
    then codes "&quot;"
    else c ∷ []

xml_escape-cons : (c : ℕ) (s : Text) → xml_escape (c ∷ s) ≡ escape_char c ++ xml_escape s
unfolding xml_escape
xml_escape-cons c s = ground arith

unescape-escape_char : (c : ℕ) (t : Text) → unescape 0 (escape_char c ++ t) ≡ c ∷ unescape 0 t
unfolding unescape starts_with
unescape-escape_char c t = ground arith

is_markup : ℕ → Bool
is_markup c = nat_beq c 0x3c || (nat_beq c 0x3e || nat_beq c 0x22)

contains-escape_char :
    (m c : ℕ) (t : Text)
    → is_markup m ≡ true
    → contains_char m t ≡ false
    → contains_char m (escape_char c ++ t) ≡ false
unfolding is_markup contains_char
contains-escape_char m c t h k = ground arith

-- Escaped text holds no `<`, `>` or `"`, so that it cannot end the element or the attribute in which
-- it stands, and a parser of XML reads it as the text that was escaped.
xml_unescape-xml_escape :
    (s : Text)
    → (xml_unescape (xml_escape s) ≡ s)
      × (contains_char 0x3c (xml_escape s) ≡ false)
      × (contains_char 0x3e (xml_escape s) ≡ false)
      × (contains_char 0x22 (xml_escape s) ≡ false)
unfolding xml_unescape
xml_unescape-xml_escape [] = unfold xml_escape contains_char in (refl, refl, refl, refl)
xml_unescape-xml_escape (c ∷ s) =
    let (r, a, b, d) = xml_unescape-xml_escape s in
    let e = xml_escape-cons c s in
    (
      rw e (unescape-escape_char c (xml_escape s) ∙ ap (λ t. c ∷ t) r),
      rw e (contains-escape_char 0x3c c (xml_escape s) (unfold is_markup in refl) a),
      rw e (contains-escape_char 0x3e c (xml_escape s) (unfold is_markup in refl) b),
      rw e (contains-escape_char 0x22 c (xml_escape s) (unfold is_markup in refl) d),
    )
