-- ===== src/Storage/Engine/Hashed.antt =====
-- src/storage/hasher.rs: hashing in pieces is hashing at once.
use my_s.Common.{Bytes, List, Text, [], ap, refl, some, sym, ◌∙◌, ◌++◌, ◌∷◌, ◌≡◌}
use my_s.Models.{EtagType, blake2_128, blake2_256, blake3_128, blake3_256, md5, sha256, sha512}
use my_s.Storage.Engine.{concat}
use my_s.Storage.Hasher.{
  Algorithm, Digests, HasherInner, StreamingHasher, digest_hex, finalize_hasher, inner, new_hasher,
  update_all, update_hasher,
}

module _ (d : Digests) (idle : (a : Algorithm) (s : d.State a) → d.update a s [] ≡ s)
    (joined : (a : Algorithm) (s : d.State a) (x y : Bytes)
      → d.update a (d.update a s x) y ≡ d.update a s (x ++ y)) where
  update_nothing :
      (t : EtagType) (i : HasherInner d)
      → update_hasher d (record { etag_type = t; state = i }) []
        ≡ record { etag_type = t; state = i }
  unfolding update_hasher
  update_nothing t (inner a s) = ap (λ x. record { etag_type = t; state = inner a x }) (idle a s)

  update_twice :
      (t : EtagType) (i : HasherInner d) (x y : Bytes)
      → update_hasher d (update_hasher d (record { etag_type = t; state = i }) x) y
        ≡ update_hasher d (record { etag_type = t; state = i }) (x ++ y)
  unfolding update_hasher
  update_twice t (inner a s) x y =
      ap (λ z. record { etag_type = t; state = inner a z }) (joined a s x y)

  pub update_all-concat :
      (h : StreamingHasher d) (chunks : List Bytes)
      → update_all d h chunks ≡ update_hasher d h (concat chunks)
  unfolding update_all concat
  update_all-concat h [] = sym (update_nothing h.etag_type h.state)
  update_all-concat h (x ∷ chunks) =
      update_all-concat (update_hasher d h x) chunks
      ∙ update_twice h.etag_type h.state x (concat chunks)

  -- The etag of a list of chunks is the digest of their concatenation, and there is one.
  pub finalize_hasher-chunks :
      (t : EtagType) (chunks : List Bytes)
      → finalize_hasher d (update_all d (new_hasher d t) chunks) ≡ digest_hex d t (concat chunks)
  unfolding digest_hex
  finalize_hasher-chunks t chunks =
      ap (finalize_hasher d) (update_all-concat (new_hasher d t) chunks)

pub digest_hex-some :
    (d : Digests) (t : EtagType) (x : Bytes) → (etag : Text) × (digest_hex d t x ≡ some etag)
unfolding digest_hex finalize_hasher update_hasher new_hasher
digest_hex-some d md5 x = (_, refl)
digest_hex-some d sha256 x = (_, refl)
digest_hex-some d sha512 x = (_, refl)
digest_hex-some d blake2_128 x = (_, refl)
digest_hex-some d blake2_256 x = (_, refl)
digest_hex-some d blake3_128 x = (_, refl)
digest_hex-some d blake3_256 x = (_, refl)
