-- ===== src/Tests/Received.antt =====
-- A run of the theorem on an object that is received twice.
use mathlib.Core.List.{append-nil, append_assoc}
use my_s.Common.{
  List, Text, [], codes, if◌then◌else◌, any, first, trim, trim_start_matches, trim_end_matches,
  is_whitespace, none, refl, some, text_beq, ◌∷◌, ◌≡◌, false,
}
use my_s.Database.{etag_mismatch}
use my_s.Models.{parse_etag_type}
use my_s.Objects.Rows.{insert_object_idempotent}
use my_s.Rbac.Buckets.{ensure_bucket, get_bucket_by_name}
use my_s.Server.Receive.{
  ObjectChunk, ObjectMetadata, Replica, failed, metadata, no_content, or_md5, payload, read_chunks,
  record_received, replicate_object,
}
use my_s.Server.Receive.Repeated.{replicate_object-again, reply_for}
use my_s.Storage.Engine.{absolute_path_for, concat, drain, put_chunks, read_file}
use my_s.Storage.Hasher.{digest_hex, finalize_hasher, new_hasher, update_hasher, update_all}
use my_s.Tests.Data.{bucket_row, sample}
use my_s.Tests.Files.{toy_digests}

abbrev sent : ObjectMetadata
sent = record {
  filepath_uuid = codes "objects/u9.txt";
  original_filename = codes "d.txt";
  file_format = codes "txt";
  etag_type = codes "md5";
  etag = codes "abc";
  date_uploaded = none;
  date_modified = none;
  bucket_name = codes "p";
}

abbrev resent : ObjectMetadata
resent = record sent { original_filename = codes "other"; etag_type = codes "crc32" }

abbrev sent_stream : List ObjectChunk
sent_stream = metadata sent ∷ payload (codes "ab") ∷ no_content ∷ payload (codes "c") ∷ []

abbrev resent_stream : List ObjectChunk
resent_stream = payload (codes "abd") ∷ metadata resent ∷ []

abbrev replica : Replica
replica = record { db = sample; disk = [] }

replicate_object-again_example :
    (let node' = (replicate_object toy_digests (λ t. t) (codes "/d") 200 sent_stream replica).1 in
      let r = replicate_object toy_digests (λ t. t) (codes "/d") 300 resent_stream node' in
      (etag : Text) × (digest_hex toy_digests
          (or_md5 (parse_etag_type resent.etag_type))
          (concat (codes "abd" ∷ []))
        ≡ some etag)
      × (r.1.db ≡ node'.db)
      × (r.0 ≡ (
          if text_beq resent.etag etag
          then reply_for (parse_etag_type resent.etag_type) etag
          else failed etag_mismatch))
      × ((q : Text)
          → read_file q r.1.disk ≡ (
              if text_beq (absolute_path_for (codes "/d") resent.filepath_uuid) q
              then if text_beq resent.etag etag then some (concat (codes "abd" ∷ [])) else none
              else read_file q node'.disk)))
unfolding replicate_object read_chunks record_received ensure_bucket get_bucket_by_name
    insert_object_idempotent parse_etag_type put_chunks drain concat finalize_hasher update_hasher
    new_hasher digest_hex any first text_beq trim trim_start_matches trim_end_matches is_whitespace
    update_all
replicate_object-again_example =
    replicate_object-again toy_digests (λ a s. append-nil s) (λ a s x y. append_assoc s x y)
      (λ t. t) (codes "/d") 200 300 sent resent sent_stream resent_stream
      (codes "ab" ∷ codes "c" ∷ []) (codes "abd" ∷ []) replica
      (bucket_row 2 (codes "p") (some 1) false) (codes "abc") refl refl refl refl refl refl
