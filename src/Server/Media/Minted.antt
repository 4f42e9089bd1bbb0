-- ===== src/Server/Media/Minted.antt =====
-- src/server/media_access.rs: a minted token is accepted until it expires.
use my_s.Common.{
  All, Bytes, Option, Text, [], all, ap, arith, as_bytes, codes, constant_time_eq_iff, dot,
  from_utf8-as_bytes, inr, is_char, pos, refl, some, split, trim, true, ℕ, ◌+◌, ◌++◌, ◌≤◌, ◌∙◌, ◌∷◌,
  ◌≡◌, text_beq, is_whitespace,
}
use my_s.Keys.Segments.{split-append, split-no_separator}
use my_s.Models.{ShareLinkRecord, i64_max}
use my_s.Server.Media.{
  grant_of_parts, mint_personal_token, mint_share_token, personal_grant, personal_payload,
  personal_ttl_secs, share_grant, share_payload, signed, verified_payload, verify_access_token,
  verify_sig,
}
use my_s.Server.Media.Pieces.{
  contains_char-is_plain, is_empty-joined, is_plain, is_plain-decimal, no_space, no_space_joined,
  no_space_plain, rsplit_once-append, trim-all,
}
use my_s.Server.Numbers.{decimal}
use my_s.Server.Numbers.Printed.{parse_i64-decimal}

-- A text in which every character is as in the parts of a token: no dot, no white space.
module _ (sign : Text → Text) (plain : (p : Text) → all is_plain (sign p) ≡ true) where
  verified_payload-signed :
      (payload : Text)
      → all no_space payload ≡ true
      → verified_payload sign (trim (signed sign payload)) ≡ inr payload
  unfolding verify_sig
  verified_payload-signed payload h =
      rw
        (
          trim-all (signed sign payload) (
              no_space_joined payload (sign payload) h
                (no_space_plain (sign payload) (plain payload))),
          is_empty-joined payload (sign payload),
          rsplit_once-append dot payload (sign payload)
              (contains_char-is_plain (sign payload) (plain payload)),
          (constant_time_eq_iff (as_bytes (sign payload)) (as_bytes (sign payload))).1 refl,
        )
        refl

split-piece : (p s : Text) → all is_plain p ≡ true → split dot (p ++ dot ∷ s) ≡ p ∷ split dot s
split-piece p s h =
    split-append dot p s
    ∙ ap (λ l. l ++ split dot s) (split-no_separator dot p (contains_char-is_plain p h))

split-last : (p : Text) → all is_plain p ≡ true → split dot p ≡ p ∷ []
split-last p h = split-no_separator dot p (contains_char-is_plain p h)

plain_v1 : all is_plain (codes "v1") ≡ true
unfolding all is_whitespace
plain_v1 = refl

plain_s : all is_plain (codes "s") ≡ true
unfolding all is_whitespace
plain_s = refl

plain_p : all is_plain (codes "p") ≡ true
unfolding all is_whitespace
plain_p = refl

split-share_payload :
    (i b e : ℕ)
    → split dot (share_payload i b e)
      ≡ codes "v1" ∷ codes "s" ∷ decimal i ∷ decimal b ∷ decimal e ∷ []
split-share_payload i b e =
    split-piece (codes "v1") _ plain_v1
    ∙ ap (λ l. codes "v1" ∷ l)
        (split-piece (codes "s") _ plain_s
          ∙ ap (λ l. codes "s" ∷ l)
              (split-piece (decimal i) _ (is_plain-decimal i)
                ∙ ap (λ l. decimal i ∷ l)
                    (split-piece (decimal b) _ (is_plain-decimal b)
                      ∙ ap (λ l. decimal b ∷ l) (split-last (decimal e) (is_plain-decimal e)))))

split-personal_payload :
    (a b : ℕ) (k : Text) (e : ℕ)
    → all is_plain k ≡ true
    → split dot (personal_payload a b k e)
      ≡ codes "v1" ∷ codes "p" ∷ decimal a ∷ decimal b ∷ k ∷ decimal e ∷ []
split-personal_payload a b k e h =
    split-piece (codes "v1") _ plain_v1
    ∙ ap (λ l. codes "v1" ∷ l)
        (split-piece (codes "p") _ plain_p
          ∙ ap (λ l. codes "p" ∷ l)
              (split-piece (decimal a) _ (is_plain-decimal a)
                ∙ ap (λ l. decimal a ∷ l)
                    (split-piece (decimal b) _ (is_plain-decimal b)
                      ∙ ap (λ l. decimal b ∷ l)
                          (split-piece k _ h
                            ∙ ap (λ l. k ∷ l) (split-last (decimal e) (is_plain-decimal e))))))

ruleset spaces = (no_space_joined, no_space_plain, is_plain-decimal, plain_v1, plain_s, plain_p)

share_payload-no_space : (i b e : ℕ) → all no_space (share_payload i b e) ≡ true
share_payload-no_space i b e = search spaces depth 9

personal_payload-no_space :
    (a b : ℕ) (k : Text) (e : ℕ)
    → all is_plain k ≡ true
    → all no_space (personal_payload a b k e) ≡ true
personal_payload-no_space a b k e h = search spaces depth 9

module _ (sign : Text → Text) (b64_encode : Bytes → Text) (b64_decode : Bytes → Option Bytes)
    (sign_plain : (p : Text) → all is_plain (sign p) ≡ true)
    (encode_plain : (b : Bytes) → all is_plain (b64_encode b) ≡ true)
    (decode_encode : (b : Bytes) → b64_decode (as_bytes (b64_encode b)) ≡ some b)
    (now later : ℕ) where
  verify-share :
      (i b e : ℕ)
      → i ≤ i64_max
      → b ≤ i64_max
      → e ≤ i64_max
      → later ≤ e
      → verify_access_token b64_decode sign later (signed sign (share_payload i b e))
        ≡ inr (share_grant (pos i) (pos b) (pos e))
  unfolding verify_access_token grant_of_parts text_beq
  verify-share i b e hi hb he hl =
      rw
        (
          verified_payload-signed sign sign_plain (share_payload i b e)
              (share_payload-no_space i b e),
          split-share_payload i b e,
          parse_i64-decimal i hi,
          parse_i64-decimal b hb,
          parse_i64-decimal e he,
        )
        (ground arith)

  verify-personal :
      (a b e : ℕ) (key : Text)
      → All (λ c. is_char c ≡ true) key
      → a ≤ i64_max
      → b ≤ i64_max
      → e ≤ i64_max
      → later ≤ e
      → verify_access_token b64_decode sign later
          (signed sign (personal_payload a b (b64_encode (as_bytes key)) e))
        ≡ inr (personal_grant (pos a) (pos b) key (pos e))
  unfolding verify_access_token grant_of_parts text_beq
  verify-personal a b e key hk ha hb he hl =
      let k = b64_encode (as_bytes key) in
      let h = encode_plain (as_bytes key) in
      rw
        (
          verified_payload-signed sign sign_plain (personal_payload a b k e)
              (personal_payload-no_space a b k e h),
          split-personal_payload a b k e h,
          parse_i64-decimal a ha,
          parse_i64-decimal b hb,
          parse_i64-decimal e he,
          decode_encode (as_bytes key),
          from_utf8-as_bytes key hk,
        )
        (ground arith)

  -- Suppose that signatures and base64 texts hold neither dots nor white space, that base64 decodes
  -- what it encoded, and that ids and times are within `i64_max`. Then a personal token is accepted
  -- until it expires, 24 hours after it was minted, as the grant of its account, bucket and key; and a
  -- token that is minted for a share is accepted until it expires as the grant of the share and its
  -- bucket.
  pub mint_token-verify_access_token :
      (account_id bucket_id : ℕ) (key : Text) (share : ShareLinkRecord) (token : Text) (exp : ℕ)
      → All (λ c. is_char c ≡ true) key
      → account_id ≤ i64_max
      → bucket_id ≤ i64_max
      → now + personal_ttl_secs ≤ i64_max
      → later ≤ now + personal_ttl_secs
      → mint_share_token sign now share ≡ inr (token, exp)
      → share.id ≤ i64_max
      → share.bucket_id ≤ i64_max
      → exp ≤ i64_max
      → later ≤ exp
      → (verify_access_token b64_decode sign later
            (mint_personal_token b64_encode sign now account_id bucket_id key).0
          ≡ inr
              (personal_grant (pos account_id) (pos bucket_id) key (pos (now + personal_ttl_secs))))
        × (verify_access_token b64_decode sign later token
            ≡ inr (share_grant (pos share.id) (pos share.bucket_id) (pos exp)))
  unfolding mint_personal_token mint_share_token
  mint_token-verify_access_token a b key share token exp hk ha hb he hl m hi hs hx hy =
      let t : (token ≡ signed sign (share_payload share.id share.bucket_id exp)) = ground arith in
      (
        verify-personal a b (now + personal_ttl_secs) key hk ha hb he hl,
        rw t (verify-share share.id share.bucket_id exp hi hs hx hy),
      )
