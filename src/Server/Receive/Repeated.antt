-- ===== src/Server/Receive/Repeated.antt =====
-- src/cluster/grpc_server.rs: the same object received twice.
use my_s.Common.{
  Bool-cases, Bytes, List, Option, Text, [], ap, arith, if◌then◌else◌, inl, inr, none, refl, some,
  sym, text_beq, true, ℕ, ◌++◌, ◌∙◌, ◌≡◌, ◌≢◌, false,
}
use my_s.Database.{Result, check_violation, err, etag_mismatch, ok}
use my_s.Models.{BucketRecord, EtagType, parse_etag_type}
use my_s.Rbac.Buckets.{get_bucket_by_name}
use my_s.Server.Blobs.{StoredObject}
use my_s.Server.Receive.{
  ObjectChunk, ObjectMetadata, Replica, ReplicationReply, acknowledge, acknowledged, failed, or_md5,
  read_chunks, receive_object, record_received, replicate_object, target_bucket,
}
use my_s.Server.Receive.Recorded.{known_type, record_received-again}
use my_s.Storage.Engine.{
  absolute_path_for, concat, extension_from_filename, read_file, remove_file, stored_as, write_file,
}
use my_s.Storage.Engine.Hashed.{digest_hex-some}
use my_s.Storage.Engine.Written.{put_chunks-forced, read_file-rewritten, read_file-write_file}
use my_s.Storage.Hasher.{Algorithm, Digests, digest_hex}

-- The answer to a message whose etag is the digest of its payload and whose row is held.
abbrev pub reply_for : Option EtagType → Text → ReplicationReply
reply_for none etag = failed check_violation
reply_for (some t) etag = acknowledged etag

lost_unacknowledged : (etag : Text) → failed etag_mismatch ≢ acknowledged etag
lost_unacknowledged etag h = ground (arith, h)

acknowledge-ok :
    (stored : StoredObject) (r : Result (Unit {0})) (etag : Text)
    → acknowledge stored r ≡ acknowledged etag
    → r ≡ ok tt
acknowledge-ok stored (ok tt) etag h = refl
acknowledge-ok stored (err e) etag h = ground arith

acknowledge-known :
    (stored : StoredObject) (t : Option EtagType)
    → acknowledge stored (known_type t) ≡ reply_for t stored.etag
acknowledge-known stored none = refl
acknowledge-known stored (some t) = refl

module _ (d : Digests) (idle : (a : Algorithm) (s : d.State a) → d.update a s [] ≡ s)
    (joined : (a : Algorithm) (s : d.State a) (x y : Bytes)
      → d.update a (d.update a s x) y ≡ d.update a s (x ++ y))
    (to_lowercase : Text → Text) (root : Text) where
  abbrev pub type_of : ObjectMetadata → EtagType
  type_of m = or_md5 (parse_etag_type m.etag_type)

  abbrev stored_of : ObjectMetadata → List Bytes → Text → StoredObject
  stored_of m chunks etag =
      stored_as d to_lowercase root m.filepath_uuid
        (extension_from_filename to_lowercase m.original_filename) (type_of m) chunks etag

  abbrev path_of : ObjectMetadata → Text
  path_of m = absolute_path_for root m.filepath_uuid

  -- What a receipt does whose payload has the expected digest.
  receive_object-kept :
      (now : ℕ) (m : ObjectMetadata) (chunks : List Bytes) (node : Replica) (etag : Text)
      → digest_hex d (type_of m) (concat chunks) ≡ some etag
      → text_beq m.etag etag ≡ true
      → (let (r, db') = record_received now m (stored_of m chunks etag) node.db in
          receive_object d to_lowercase root now m chunks node ≡ (
            acknowledge (stored_of m chunks etag) r,
            record { db = db'; disk = write_file (path_of m) (concat chunks) node.disk },
          ))
  receive_object-kept now m chunks node etag h k =
      rw
        (
          put_chunks-forced d idle joined to_lowercase root [] m.original_filename (type_of m)
              chunks node.disk m.filepath_uuid m.etag etag h,
          k,
        )
        refl

  -- What it does with another digest.
  receive_object-lost :
      (now : ℕ) (m : ObjectMetadata) (chunks : List Bytes) (node : Replica) (etag : Text)
      → digest_hex d (type_of m) (concat chunks) ≡ some etag
      → text_beq m.etag etag ≡ false
      → (let written = write_file (path_of m) (concat chunks) node.disk in
          receive_object d to_lowercase root now m chunks node
          ≡ (failed etag_mismatch, record { db = node.db; disk = remove_file (path_of m) written }))
  receive_object-lost now m chunks node etag h k =
      rw
        (
          put_chunks-forced d idle joined to_lowercase root [] m.original_filename (type_of m)
              chunks node.disk m.filepath_uuid m.etag etag h,
          k,
        )
        refl

  replicate_object-read :
      (now : ℕ) (m : ObjectMetadata) (stream : List ObjectChunk) (chunks : List Bytes)
      (node : Replica)
      → read_chunks stream ≡ some (some m, chunks)
      → replicate_object d to_lowercase root now stream node
        ≡ receive_object d to_lowercase root now m chunks node
  unfolding replicate_object
  replicate_object-read now m stream chunks node s = rw s refl

  -- What a receipt that is acknowledged has recorded.
  receive_object-recorded :
      (now : ℕ) (m : ObjectMetadata) (chunks : List Bytes) (node : Replica) (confirmed : Text)
      → (receive_object d to_lowercase root now m chunks node).0 ≡ acknowledged confirmed
      → (etag : Text) × ((record_received now m (stored_of m chunks etag) node.db).0 ≡ ok tt)
        × ((receive_object d to_lowercase root now m chunks node).1.db
            ≡ (record_received now m (stored_of m chunks etag) node.db).1)
  receive_object-recorded now m chunks node confirmed h =
      let (etag, e) = digest_hex-some d (type_of m) (concat chunks) in
      elim (Bool-cases (text_beq m.etag etag)) [
        | inl k ↦
            let r = receive_object-kept now m chunks node etag e k in
            (
              etag,
              acknowledge-ok (stored_of m chunks etag)
                  (record_received now m (stored_of m chunks etag) node.db).0 confirmed
                  (sym (ap (λ x. x.0) r) ∙ h),
              ap (λ x. x.1.db) r,
            )
        | inr k ↦ absurd (
            lost_unacknowledged confirmed
              (sym (ap (λ x. x.0) (receive_object-lost now m chunks node etag e k)) ∙ h))
      ]

  receive_object-again :
      (later : ℕ) (m : ObjectMetadata) (chunks : List Bytes) (node : Replica)
      → ((etag : Text)
          → record_received later m (stored_of m chunks etag) node.db
            ≡ (known_type (parse_etag_type m.etag_type), node.db))
      → (let r = receive_object d to_lowercase root later m chunks node in
          (etag : Text) × (digest_hex d (type_of m) (concat chunks) ≡ some etag)
          × (r.1.db ≡ node.db)
          × (r.0 ≡ (
              if text_beq m.etag etag
              then reply_for (parse_etag_type m.etag_type) etag
              else failed etag_mismatch))
          × ((q : Text)
              → read_file q r.1.disk ≡ (
                  if text_beq (path_of m) q
                  then if text_beq m.etag etag then some (concat chunks) else none
                  else read_file q node.disk)))
  receive_object-again later m chunks node held =
      let (etag, e) = digest_hex-some d (type_of m) (concat chunks) in
      let p = path_of m in
      elim (Bool-cases (text_beq m.etag etag)) [
        | inl k ↦
            let r = receive_object-kept later m chunks node etag e k in
            (
              etag,
              e,
              ap (λ x. x.1.db) r ∙ ap (λ x. x.1) (held etag),
              ap (λ x. x.0) r
                  ∙ ap (λ x. acknowledge (stored_of m chunks etag) x.0) (held etag)
                  ∙ rw k
                      (acknowledge-known (stored_of m chunks etag) (parse_etag_type m.etag_type)),
              λ q.
                  ap (λ x. read_file q x.1.disk) r
                  ∙ rw k (read_file-write_file q p (concat chunks) node.disk),
            )
        | inr k ↦
            let r = receive_object-lost later m chunks node etag e k in
            (
              etag,
              e,
              ap (λ x. x.1.db) r,
              ap (λ x. x.0) r ∙ rw k refl,
              λ q.
                  ap (λ x. read_file q x.1.disk) r
                  ∙ rw k (read_file-rewritten q p (concat chunks) node.disk),
            )
      ]

  -- Suppose that feeding a hash in pieces is feeding it at once, and that an object has been received
  -- into a known bucket and acknowledged. A second message for the same path and bucket, whatever else
  -- it says, leaves the database as it is. It is acknowledged, with the digest of its payload, exactly
  -- if that digest is its etag and the type of the etag is known; another etag or another type fails.
  -- The file at the path is then the new payload if the etag is its digest, and else it is gone; every
  -- other path is as it was.
  pub replicate_object-again :
      (now later : ℕ) (m m' : ObjectMetadata) (stream stream' : List ObjectChunk)
      (chunks chunks' : List Bytes) (node : Replica) (b : BucketRecord) (confirmed : Text)
      → get_bucket_by_name (target_bucket m.bucket_name) node.db ≡ some b
      → read_chunks stream ≡ some (some m, chunks)
      → (replicate_object d to_lowercase root now stream node).0 ≡ acknowledged confirmed
      → read_chunks stream' ≡ some (some m', chunks')
      → m'.filepath_uuid ≡ m.filepath_uuid
      → target_bucket m'.bucket_name ≡ target_bucket m.bucket_name
      → (let node' = (replicate_object d to_lowercase root now stream node).1 in
          let r = replicate_object d to_lowercase root later stream' node' in
          (etag : Text) × (digest_hex d (or_md5 (parse_etag_type m'.etag_type)) (concat chunks')
            ≡ some etag)
          × (r.1.db ≡ node'.db)
          × (r.0 ≡ (
              if text_beq m'.etag etag
              then reply_for (parse_etag_type m'.etag_type) etag
              else failed etag_mismatch))
          × ((q : Text)
              → read_file q r.1.disk ≡ (
                  if text_beq (absolute_path_for root m'.filepath_uuid) q
                  then if text_beq m'.etag etag then some (concat chunks') else none
                  else read_file q node'.disk)))
  replicate_object-again now later m m' stream stream' chunks chunks' node b confirmed g s h s' k
        n =
      let e = replicate_object-read now m stream chunks node s in
      let node' = (replicate_object d to_lowercase root now stream node).1 in
      let (etag, done, recorded) =
        receive_object-recorded now m chunks node confirmed (sym (ap (λ x. x.0) e) ∙ h) in
      let same : node'.db ≡ (record_received now m (stored_of m chunks etag) node.db).1 =
        ap (λ x. x.1.db) e ∙ recorded in
      rw (replicate_object-read later m' stream' chunks' node' s') (
        receive_object-again later m' chunks' node' (λ etag'.
          ap (λ x. record_received later m' (stored_of m' chunks' etag') x) same
          ∙ record_received-again now later m m' (stored_of m chunks etag)
              (stored_of m' chunks' etag') node.db b g done k n
          ∙ ap (λ x. (known_type (parse_etag_type m'.etag_type), x)) (sym same)))
