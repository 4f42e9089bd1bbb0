-- ===== src/Storage/Engine/Written.antt =====
-- src/storage/engine.rs: a stored file is read and hashed as it was written.
use my_s.Common.{
  Bool-cases, Bytes, List, Text, [], ap, arith, false, first, if◌then◌else◌, inl, inr, length,
  length-append, map, none, refl, some, starts_with, sum, text_beq, text_beq_iff, text_beq_refl,
  delete, true, ◌∙◌, ◌++◌, ◌∷◌, ◌≡◌, ◌≢◌,
}
use my_s.Database.{err, etag_mismatch, ok}
use my_s.Models.{EtagType}
use my_s.Server.Blobs.{StoredObject}
use my_s.Storage.Engine.{
  Disk, absolute_path_for, at_path, concat, drain, extension_from_filename, hash_filepath,
  join_path, open_read, put_chunks, read_file, relative_filepath, remove_file, stored_as, total_of,
  write_file,
}
use my_s.Storage.Engine.Hashed.{digest_hex-some, finalize_hasher-chunks}
use my_s.Storage.Hasher.{Algorithm, Digests, digest_hex}

first-delete_other :
    (p q : Text) (disk : Disk)
    → text_beq q p ≡ false
    → first (at_path p) (delete (at_path q) disk) ≡ first (at_path p) disk
unfolding first delete
first-delete_other p q [] h = refl
first-delete_other p q ((r, c) ∷ disk) h =
    ground
      (arith, text_beq_iff r p, text_beq_iff r q, text_beq_iff q p, first-delete_other p q disk h)

first-delete_same : (p : Text) (disk : Disk) → first (at_path p) (delete (at_path p) disk) ≡ none
unfolding first delete
first-delete_same p [] = refl
first-delete_same p ((r, c) ∷ disk) = ground (arith, first-delete_same p disk)

pub read_file-write_file :
    (p q : Text) (contents : Bytes) (disk : Disk)
    → read_file p (write_file q contents disk)
      ≡ (if text_beq q p then some contents else read_file p disk)
unfolding read_file write_file remove_file first
read_file-write_file p q contents disk = elim (Bool-cases (text_beq q p)) [
  | inl e ↦ ground (arith, e)
  | inr e ↦ ground (arith, e, first-delete_other p q disk e)
]

pub read_file-remove_file :
    (p q : Text) (disk : Disk)
    → read_file p (remove_file q disk) ≡ (if text_beq q p then none else read_file p disk)
unfolding read_file remove_file
read_file-remove_file p q disk = elim (Bool-cases (text_beq q p)) [
  | inl e ↦ ground (arith, e, (text_beq_iff q p).0 e, first-delete_same p disk)
  | inr e ↦ ground (arith, e, first-delete_other p q disk e)
]

pub read_file-rewritten :
    (q p : Text) (contents : Bytes) (disk : Disk)
    → read_file q (remove_file p (write_file p contents disk))
      ≡ (if text_beq p q then none else read_file q disk)
read_file-rewritten q p contents disk =
    read_file-remove_file q p (write_file p contents disk)
    ∙ ground (arith, read_file-write_file q p contents disk)

drain-all : (chunks : List Bytes) → drain (map some chunks) ≡ (chunks, true)
unfolding drain
drain-all [] = refl
drain-all (x ∷ chunks) = ground (arith, drain-all chunks)

total_of-concat : (chunks : List Bytes) → total_of chunks ≡ length (concat chunks)
unfolding sum concat
total_of-concat [] = refl
total_of-concat (x ∷ chunks) =
    omega (arith, total_of-concat chunks, length-append x (concat chunks))

absolute_path_for-relative :
    (root uuid ext : Text)
    → absolute_path_for root (relative_filepath uuid ext)
      ≡ join_path root (relative_filepath uuid ext)
unfolding absolute_path_for relative_filepath starts_with
absolute_path_for-relative root uuid ext = refl

module _ (d : Digests) (idle : (a : Algorithm) (s : d.State a) → d.update a s [] ≡ s)
    (joined : (a : Algorithm) (s : d.State a) (x y : Bytes)
      → d.update a (d.update a s x) y ≡ d.update a s (x ++ y))
    (to_lowercase : Text → Text) (root uuid name : Text) (t : EtagType) (chunks : List Bytes)
    (disk : Disk) where
  abbrev new_format : Text
  new_format = extension_from_filename to_lowercase name

  abbrev new_filepath : Text
  new_filepath = relative_filepath uuid new_format

  abbrev after_put : Disk
  after_put = write_file (join_path root new_filepath) (concat chunks) disk

  put_chunks-stored :
      (etag : Text)
      → digest_hex d t (concat chunks) ≡ some etag
      → put_chunks d to_lowercase root uuid (map some chunks) name t none none disk ≡ (
        some (ok (stored_as d to_lowercase root new_filepath new_format t chunks etag)),
        after_put,
      )
  unfolding put_chunks
  put_chunks-stored etag h =
      rw (drain-all chunks, finalize_hasher-chunks d idle joined t chunks, h) refl

  hash_filepath-read :
      (read_blocks : Bytes → List Bytes) (filepath : Text) (contents : Bytes) (etag : Text)
      (disk' : Disk)
      → concat (read_blocks contents) ≡ contents
      → read_file (absolute_path_for root filepath) disk' ≡ some contents
      → digest_hex d t contents ≡ some etag
      → hash_filepath d to_lowercase root read_blocks filepath t disk' ≡ some (ok etag)
  unfolding hash_filepath open_read
  hash_filepath-read read_blocks filepath contents etag disk' w r h = ground (
    arith,
    finalize_hasher-chunks d idle joined t (read_blocks contents) ∙ ap (digest_hex d t) w ∙ h,
  )

  -- Suppose that feeding a hash in pieces is feeding it at once. Then an upload whose stream
  -- ends, of which no etag is expected and to which no path is given, is stored with the digest of the
  -- joined chunks as its etag and with their length as its size; the disk then has the joined chunks
  -- at the path of the file and every other path as it was; and hashing the file again, whatever
  -- blocks it is read in, gives the etag.
  pub put_chunks-hash_filepath :
      (read_blocks : Bytes → List Bytes)
      → ((x : Bytes) → concat (read_blocks x) ≡ x)
      → (stored : StoredObject) × (disk' : Disk) × (put_chunks d to_lowercase root uuid
            (map some chunks)
            name
            t
            none
            none
            disk
          ≡ (some (ok stored), disk'))
        × (digest_hex d t (concat chunks) ≡ some stored.etag)
        × (stored.filesize_bytes ≡ length (concat chunks))
        × ((q : Text)
            → read_file q disk' ≡ (
                if text_beq (absolute_path_for root stored.filepath) q
                then some (concat chunks)
                else read_file q disk))
        × (hash_filepath d to_lowercase root read_blocks stored.filepath t disk'
            ≡ some (ok stored.etag))
  put_chunks-hash_filepath read_blocks whole =
      let (etag, e) = digest_hex-some d t (concat chunks) in
      let p = absolute_path_for-relative root uuid new_format in
      let there : read_file (absolute_path_for root new_filepath) after_put ≡ some (concat chunks) =
        read_file-write_file (absolute_path_for root new_filepath) (join_path root new_filepath)
          (concat chunks) disk
        ∙ rw (p, text_beq_refl (join_path root new_filepath)) refl in
      (
        stored_as d to_lowercase root new_filepath new_format t chunks etag,
        after_put,
        put_chunks-stored etag e,
        e,
        total_of-concat chunks,
        λ q. rw p (read_file-write_file q (join_path root new_filepath) (concat chunks) disk),
        hash_filepath-read read_blocks new_filepath (concat chunks) etag after_put
            (whole (concat chunks)) there e,
      )

  -- An upload to a given path of which an etag is expected.
  pub put_chunks-forced :
      (forced expected etag : Text)
      → digest_hex d t (concat chunks) ≡ some etag
      → (let p = absolute_path_for root forced in
          let written = write_file p (concat chunks) disk in
          put_chunks d to_lowercase root uuid
            (map some chunks)
            name
            t
            (some expected)
            (some forced)
            disk
          ≡ (if text_beq expected etag
              then (
                some (ok (stored_as d to_lowercase root forced new_format t chunks etag)),
                written,
              )
              else (some (err etag_mismatch), remove_file p written)))
  unfolding put_chunks
  put_chunks-forced forced expected etag h =
      rw (drain-all chunks, finalize_hasher-chunks d idle joined t chunks, h) refl

  -- An upload to a given path, whose joined chunks have another digest than the expected one, fails,
  -- and leaves no file at the path and every other path as it was.
  pub put_chunks-mismatch :
      (forced expected etag : Text)
      → digest_hex d t (concat chunks) ≡ some etag
      → expected ≢ etag
      → (disk' : Disk) × (put_chunks d to_lowercase root uuid
            (map some chunks)
            name
            t
            (some expected)
            (some forced)
            disk
          ≡ (some (err etag_mismatch), disk'))
        × ((q : Text)
            → read_file q disk'
              ≡ (if text_beq (absolute_path_for root forced) q then none else read_file q disk))
  unfolding put_chunks
  put_chunks-mismatch forced expected etag h n =
      let p = absolute_path_for root forced in
      let other : text_beq expected etag ≡ false = ground (arith, text_beq_iff expected etag) in
      (
        remove_file p (write_file p (concat chunks) disk),
        rw (drain-all chunks, finalize_hasher-chunks d idle joined t chunks, h, other) refl,
        λ q. read_file-rewritten q p (concat chunks) disk,
      )
