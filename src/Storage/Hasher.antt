-- ===== src/Storage/Hasher.antt =====
-- src/storage/hasher.rs: the hasher of the stored files. The hash functions and the hexadecimal
-- encoding are parameters: a state for each algorithm, which is fed with bytes.
use my_s.Common.{Bytes, List, Option, Text, [], none, some, ◌∷◌}
use my_s.Models.{EtagType, blake2_128, blake2_256, blake3_128, blake3_256, md5, sha256, sha512}

-- The six hash states of `HasherInner`.
pub data Algorithm : Type 0 where
  md5_hash sha256_hash sha512_hash blake2_128_hash blake2_256_hash blake3_hash : Algorithm

pub record Digests : Type 1 where
  pub State : Algorithm → Type 0
  pub new : (a : Algorithm) → State a
  pub update : (a : Algorithm) → State a → Bytes → State a
  -- `finalize()`
  pub finalize : (a : Algorithm) → State a → Bytes
  -- `finalize_xof().fill` of 16 bytes, of BLAKE3
  pub finalize_16 : State blake3_hash → Bytes
  pub hex : Bytes → Text

abbrev pub algorithm_of : EtagType → Algorithm
algorithm_of md5 = md5_hash
algorithm_of sha256 = sha256_hash
algorithm_of sha512 = sha512_hash
algorithm_of blake2_128 = blake2_128_hash
algorithm_of blake2_256 = blake2_256_hash
algorithm_of blake3_128 = blake3_hash
algorithm_of blake3_256 = blake3_hash

module _ (d : Digests) where
  open d use {State, new, update, finalize, finalize_16, hex}

  pub data HasherInner : Type 0 where
    inner : (a : Algorithm) → State a → HasherInner

  pub record StreamingHasher : Type 0 where
    pub etag_type : EtagType
    pub state : HasherInner

  unfoldable pub new_hasher : EtagType → StreamingHasher
  new_hasher t = record { etag_type = t; state = inner (algorithm_of t) (new (algorithm_of t)) }

  abbrev update_inner : HasherInner → Bytes → HasherInner
  update_inner (inner a s) data' = inner a (update a s data')

  unfoldable pub update_hasher : StreamingHasher → Bytes → StreamingHasher
  update_hasher h data' = record { etag_type = h.etag_type; state = update_inner h.state data' }

  -- None is the panic of `unreachable!`.
  abbrev pub finalize_inner : EtagType → HasherInner → Option Text
  finalize_inner md5 (inner md5_hash s) = some (hex (finalize md5_hash s))
  finalize_inner sha256 (inner sha256_hash s) = some (hex (finalize sha256_hash s))
  finalize_inner sha512 (inner sha512_hash s) = some (hex (finalize sha512_hash s))
  finalize_inner blake2_128 (inner blake2_128_hash s) = some (hex (finalize blake2_128_hash s))
  finalize_inner blake2_256 (inner blake2_256_hash s) = some (hex (finalize blake2_256_hash s))
  finalize_inner blake3_128 (inner blake3_hash s) = some (hex (finalize_16 s))
  finalize_inner blake3_256 (inner blake3_hash s) = some (hex (finalize blake3_hash s))
  finalize_inner _ _ = none

  unfoldable pub finalize_hasher : StreamingHasher → Option Text
  finalize_hasher h = finalize_inner h.etag_type h.state

  unfoldable pub digest_hex : EtagType → Bytes → Option Text
  digest_hex t data' = finalize_hasher (update_hasher (new_hasher t) data')

  -- The loops that hash while reading or writing.
  unfoldable pub update_all : StreamingHasher → List Bytes → StreamingHasher
  update_all h [] = h
  update_all h (chunk ∷ chunks) = update_all (update_hasher h chunk) chunks
