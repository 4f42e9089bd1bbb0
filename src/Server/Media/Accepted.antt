-- ===== src/Server/Media/Accepted.antt =====
-- src/server/media_access.rs: what an accepted token shows.
use my_s.Common.{
  Bytes, List, Option, Option-cases, Text, [], arith, as_bytes, constant_time_eq_iff, dot, false,
  inl, inr, rsplit_once, split, sym, trim, ℕ, ◌++◌, ◌∷◌, ◌≡◌,
}
use my_s.Server.Media.{
  MediaGrant, personal_parts, share_parts, before_now, exp_unix, grant_of_parts,
  verify_access_token, verify_sig,
}
use my_s.Server.Media.Pieces.{rsplit_once-some}

share_parts-unexpired :
    (now : ℕ) (a b e : Text) (grant : MediaGrant)
    → share_parts now a b e ≡ inr grant
    → before_now (exp_unix grant) now ≡ false
unfolding exp_unix
share_parts-unexpired now a b e grant h = ground arith

personal_parts-unexpired :
    (b64_decode : Bytes → Option Bytes) (now : ℕ) (a b k e : Text) (grant : MediaGrant)
    → personal_parts b64_decode now a b k e ≡ inr grant
    → before_now (exp_unix grant) now ≡ false
unfolding exp_unix
personal_parts-unexpired b64_decode now a b k e grant h = ground arith

grant_of_parts-unexpired :
    (b64_decode : Bytes → Option Bytes) (now : ℕ) (parts : List Text) (grant : MediaGrant)
    → grant_of_parts b64_decode now parts ≡ inr grant
    → before_now (exp_unix grant) now ≡ false
unfolding grant_of_parts
grant_of_parts-unexpired d now (v ∷ k ∷ a ∷ b ∷ e ∷ []) grant h =
    ground (arith, share_parts-unexpired now a b e grant)
grant_of_parts-unexpired d now (v ∷ k ∷ a ∷ b ∷ key ∷ e ∷ []) grant h =
    ground (arith, personal_parts-unexpired d now a b key e grant)
grant_of_parts-unexpired d now _ grant h = ground arith

module _ (b64_decode : Bytes → Option Bytes) (sign : Text → Text) where
  -- An accepted token, less the white space around it, is a payload and the signature of that payload
  -- with a dot between them; its payload is what the grant was read from, and the grant has not expired.
  pub verify_access_token-signed :
      (now : ℕ) (token : Text) (grant : MediaGrant)
      → verify_access_token b64_decode sign now token ≡ inr grant
      → (payload : Text) × (sig : Text) × (trim token ≡ payload ++ dot ∷ sig)
        × (as_bytes sig ≡ as_bytes (sign payload))
        × (grant_of_parts b64_decode now (split dot payload) ≡ inr grant)
        × (before_now (exp_unix grant) now ≡ false)
  unfolding verify_access_token verify_sig
  verify_access_token-signed now token grant h =
      elim (Option-cases (rsplit_once dot (trim token))) [
        | inl e ↦ absurd (ground (arith, e))
        | inr ((payload, sig), e) ↦
            let same = constant_time_eq_iff (as_bytes (sign payload)) (as_bytes sig) in
            let parts : grant_of_parts b64_decode now (split dot payload) ≡ inr grant =
              ground (arith, e) in
            (
              payload,
              sig,
              rsplit_once-some dot (trim token) payload sig e,
              sym (same.0 (ground (arith, e))),
              parts,
              grant_of_parts-unexpired b64_decode now (split dot payload) grant parts,
            )
      ]
