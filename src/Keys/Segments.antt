-- ===== src/Keys/Segments.antt =====
-- src/server/keys.rs: the segments of an accepted key or prefix.
use my_s.Common.{
  Bool, List, Text, [], all, ap, arith, codes, contains_char, false, refl, slash, split,
  text_beq_iff, trim, trim_end_matches, trim_start_matches, true, ℕ, ◌&&◌, ◌++◌, ◌∷◌, ◌≡◌, ◌≢◌,
}
use my_s.Database.{ok}
use my_s.Keys.{is_slash, normalize_folder_prefix, normalize_object_key, valid_segment}

-- The segments of a text: what stands between two separators, or between one and an end.
split-ne-nil : (d : ℕ) (s : Text) → split d s ≢ []
unfolding split
split-ne-nil d [] = λ e. cc
split-ne-nil d (c ∷ s) = ground arith

-- A separator splits the text before it and the text behind it.
pub split-append : (d : ℕ) (s t : Text) → split d (s ++ d ∷ t) ≡ split d s ++ split d t
unfolding split
split-append d [] t = ground arith
split-append d (c ∷ s) t = ground (arith, split-append d s t, split-ne-nil d s)

pub split-no_separator : (d : ℕ) (s : Text) → contains_char d s ≡ false → split d s ≡ s ∷ []
unfolding split contains_char
split-no_separator d [] h = refl
split-no_separator d (c ∷ s) h = ground (arith, split-no_separator d s)

pub all-append {ℓ} :
    {A : Type ℓ} (p : A → Bool) (xs ys : List A) → all p (xs ++ ys) ≡ (all p xs && all p ys)
unfolding all
all-append p [] ys = refl
all-append p (x ∷ xs) ys = ground (arith, all-append p xs ys)

-- `SegmentOf seg k`: `seg` stands in `k` between separators or the ends of `k`.
pub data SegmentOf (seg : Text) (k : Text) : Type 0 where
  whole : k ≡ seg → SegmentOf seg k
  at_start : (after : Text) → k ≡ seg ++ slash ∷ after → SegmentOf seg k
  at_end : (before : Text) → k ≡ before ++ slash ∷ seg → SegmentOf seg k
  inside : (before after : Text) → k ≡ before ++ slash ∷ (seg ++ slash ∷ after) → SegmentOf seg k

-- What a test on the segments of a split says of the segments of the text.
pub all-SegmentOf :
    (p : Text → Bool) (seg k : Text)
    → all p (split slash k) ≡ true
    → contains_char slash seg ≡ false
    → SegmentOf seg k
    → p seg ≡ true
all-SegmentOf p seg k h n (whole e) =
    unfold all in ground (arith, ap (λ t. all p (split slash t)) e, split-no_separator slash seg)
all-SegmentOf p seg k h n (at_start after e) =
    unfold all in
    ground (
      arith,
      ap (λ t. all p (split slash t)) e,
      split-no_separator slash seg,
      split-append slash seg after,
    )
all-SegmentOf p seg k h n (at_end before e) =
    unfold all in
    ground (
      arith,
      ap (λ t. all p (split slash t)) e,
      split-no_separator slash seg,
      split-append slash before seg,
      all-append p (split slash before) (seg ∷ []),
    )
all-SegmentOf p seg k h n (inside before after e) =
    unfold all in
    ground (
      arith,
      ap (λ t. all p (split slash t)) e,
      split-no_separator slash seg,
      split-append slash before (seg ++ slash ∷ after),
      split-append slash seg after,
      all-append p (split slash before) (seg ∷ split slash after),
    )

pub valid_segment-holds :
    (seg : Text) → valid_segment seg ≡ true → (seg ≢ []) × (seg ≢ codes ".") × (seg ≢ codes "..")
unfolding valid_segment
valid_segment-holds seg h =
    ground (arith, text_beq_iff seg (codes "."), text_beq_iff seg (codes ".."))

accepted :
    (raw key : Text)
    → normalize_object_key raw ≡ ok key
    → all valid_segment (split slash key) ≡ true
unfolding normalize_object_key
accepted raw key h = ground arith

-- Whatever the request path, no segment of an accepted object key is empty, `.` or `..`.
normalize_object_key-segments :
    (raw key seg : Text)
    → normalize_object_key raw ≡ ok key
    → contains_char slash seg ≡ false
    → SegmentOf seg key
    → (seg ≢ []) × (seg ≢ codes ".") × (seg ≢ codes "..")
normalize_object_key-segments raw key seg h n s =
    valid_segment-holds seg (all-SegmentOf valid_segment seg key (accepted raw key h) n s)

append_last_injective : (c : ℕ) (s t : Text) → s ++ c ∷ [] ≡ t ++ c ∷ [] → s ≡ t
append_last_injective c [] [] e = refl
append_last_injective c [] (d ∷ []) e = ground arith
append_last_injective c [] (d ∷ f ∷ t) e = ground arith
append_last_injective c (d ∷ []) [] e = ground arith
append_last_injective c (d ∷ f ∷ s) [] e = ground arith
append_last_injective c (d ∷ s) (f ∷ t) e = ground (arith, append_last_injective c s t)

accepted_prefix :
    (raw prefix : Text)
    → normalize_folder_prefix raw ≡ ok prefix
    → (inner : Text) × (prefix ≡ inner ++ slash ∷ [])
      × (all valid_segment (split slash inner) ≡ true)
unfolding normalize_folder_prefix
accepted_prefix raw prefix h =
    (trim_end_matches is_slash (trim_start_matches is_slash (trim raw)), ground arith, ground arith)

-- An accepted folder prefix ends in a slash, and no segment of the text before that slash is empty,
-- `.` or `..`.
pub normalize_folder_prefix-segments :
    (raw inner seg : Text)
    → normalize_folder_prefix raw ≡ ok (inner ++ slash ∷ [])
    → contains_char slash seg ≡ false
    → SegmentOf seg inner
    → (seg ≢ []) × (seg ≢ codes ".") × (seg ≢ codes "..")
normalize_folder_prefix-segments raw inner seg h n s =
    let (inner', e, v) = accepted_prefix raw (inner ++ slash ∷ []) h in
    valid_segment-holds seg (
      all-SegmentOf valid_segment seg inner (rw (append_last_injective slash inner inner' e) v) n s)
