-- ===== src/Tests/Files.antt =====
-- Runs of the theorems on stored files and archives.
use mathlib.Core.List.{append-nil, append_assoc}
use my_s.Common.{
  Bytes, List, Text, [], arith, codes, if◌then◌else◌, length, map, none, refl, some, text_beq,
  text_beq_iff, ◌++◌, ◌∷◌, ◌≡◌, ◌≢◌,
}
use my_s.Database.{err, etag_mismatch, ok}
use my_s.Models.{md5}
use my_s.Server.Blobs.{StoredObject}
use my_s.Storage.Engine.{Disk, absolute_path_for, concat, hash_filepath, put_chunks, read_file}
use my_s.Storage.Engine.Written.{put_chunks-hash_filepath, put_chunks-mismatch}
use my_s.Storage.Hasher.{Digests, digest_hex, new_hasher, finalize_hasher, update_hasher}

-- A hash that keeps all its bytes.
abbrev pub toy_digests : Digests
toy_digests = record {
  State = λ a. Bytes;
  new = λ a. [];
  update = λ a s x. s ++ x;
  finalize = λ a s. s;
  finalize_16 = λ s. s;
  hex = λ x. x;
}

abbrev two_chunks : List Bytes
two_chunks = codes "ab" ∷ codes "c" ∷ []

concat-single : (x : Bytes) → concat (x ∷ []) ≡ x
unfolding concat
concat-single x = append-nil x

put_chunks-hash_filepath_example :
    (stored : StoredObject) × (disk' : Disk) × (put_chunks toy_digests
        (λ t. t)
        (codes "/d")
        (codes "u9")
        (map some two_chunks)
        (codes "x.txt")
        md5
        none
        none
        []
      ≡ (some (ok stored), disk'))
    × (digest_hex toy_digests md5 (concat two_chunks) ≡ some stored.etag)
    × (stored.filesize_bytes ≡ length (concat two_chunks))
    × ((q : Text)
        → read_file q disk' ≡ (
            if text_beq (absolute_path_for (codes "/d") stored.filepath) q
            then some (concat two_chunks)
            else read_file q []))
    × (hash_filepath toy_digests (λ t. t) (codes "/d") (λ x. x ∷ []) stored.filepath md5 disk'
        ≡ some (ok stored.etag))
put_chunks-hash_filepath_example =
    put_chunks-hash_filepath toy_digests (λ a s. append-nil s) (λ a s x y. append_assoc s x y)
      (λ t. t) (codes "/d") (codes "u9") (codes "x.txt") md5 two_chunks [] (λ x. x ∷ [])
      concat-single

other_etag : codes "zz" ≢ codes "abc"
unfolding text_beq
other_etag e = absurd (ground (arith, (text_beq_iff (codes "zz") (codes "abc")).1 e))

put_chunks-mismatch_example :
    (disk' : Disk) × (put_chunks toy_digests
        (λ t. t)
        (codes "/d")
        (codes "u9")
        (map some two_chunks)
        (codes "x.txt")
        md5
        (some (codes "zz"))
        (some (codes "objects/u1.txt"))
        ((codes "/d/objects/u1.txt", codes "good") ∷ [])
      ≡ (some (err etag_mismatch), disk'))
    × ((q : Text)
        → read_file q disk' ≡ (
            if text_beq (absolute_path_for (codes "/d") (codes "objects/u1.txt")) q
            then none
            else read_file q ((codes "/d/objects/u1.txt", codes "good") ∷ [])))
unfolding digest_hex finalize_hasher update_hasher new_hasher concat
put_chunks-mismatch_example =
    put_chunks-mismatch toy_digests (λ a s. append-nil s) (λ a s x y. append_assoc s x y) (λ t. t)
      (codes "/d") (codes "u9") (codes "x.txt") md5 two_chunks
      ((codes "/d/objects/u1.txt", codes "good") ∷ []) (codes "objects/u1.txt") (codes "zz")
      (codes "abc") refl other_etag
