-- ===== src/Server/Content/Served.antt =====
-- src/server/web_routes.rs: what the contents handler serves, and to whom.
use my_s.Common.{List, Option, Option-cases, Text, arith, inl, inr, none, some, true, ℕ, ◌≡◌}
use my_s.Database.{Result-cases, ok}
use my_s.Keys.{normalize_object_key}
use my_s.Models.{BucketRecord, ObjectRecord, read_action}
use my_s.Objects.Rows.{get_object_by_filename, get_object_by_filename_in_bucket}
use my_s.Rbac.Permissions.{check_perm}
use my_s.Server.Blobs.{Store}
use my_s.Server.Content.{
  Content, get_object_keyed_with_headers, parsed_range, partial, require_bucket_perm,
  resolve_bucket_id, respond, web_get_object_content, whole_file,
}

abbrev pub served : Content → Option ObjectRecord
served (partial o start stop) = some o
served (whole_file o) = some o
served _ = none

respond-served :
    (o x : ObjectRecord) (header : Option Text) (r : Option (ℕ × ℕ)) (files : List Text)
    → served (respond o header r files) ≡ some x
    → o ≡ x
respond-served o x header none files h = ground arith
respond-served o x header (some (a, b)) files h = ground arith

pub keyed-served :
    (key : Text) (header : Option Text) (s : Store) (x : ObjectRecord)
    → served (get_object_keyed_with_headers key header s) ≡ some x
    → get_object_by_filename key s.db ≡ some x
unfolding get_object_keyed_with_headers
keyed-served key header s x h = elim (Option-cases (get_object_by_filename key s.db)) [
  | inl e ↦ ground arith
  | inr (o, e) ↦
      ground (arith, respond-served o x header (parsed_range header o.filesize_bytes) s.files)
]

-- An object is only served for a valid key and a known bucket that the account may read and that
-- has an active object of the key. What is served is the first active object of the key in any of
-- the buckets.
pub web_get_object_content-served :
    (raw_key : Text) (bucket_name : Option Text) (account_id : ℕ) (header : Option Text) (s : Store)
    (o : ObjectRecord)
    → served (web_get_object_content raw_key bucket_name account_id header s) ≡ some o
    → (key : Text) × (b : BucketRecord) × (held : ObjectRecord) × (normalize_object_key raw_key
        ≡ ok key)
      × (resolve_bucket_id bucket_name s.db ≡ some b)
      × (check_perm account_id b.id read_action s.db ≡ true)
      × (get_object_by_filename_in_bucket key b.id s.db ≡ some held)
      × (get_object_by_filename key s.db ≡ some o)
unfolding web_get_object_content require_bucket_perm
web_get_object_content-served raw_key bucket_name account_id header s o h =
    elim (Result-cases (normalize_object_key raw_key)) [
      | inr (d, e) ↦ absurd (ground (arith, e))
      | inl (key, e) ↦ elim (Option-cases (resolve_bucket_id bucket_name s.db)) [
        | inl f ↦ absurd (ground (arith, e, f))
        | inr (b, f) ↦ elim (Option-cases (get_object_by_filename_in_bucket key b.id s.db)) [
          | inl g ↦ absurd (ground (arith, e, f, g))
          | inr (held, g) ↦ (
            key,
            b,
            held,
            e,
            f,
            ground (arith, e, f, g),
            g,
            ground (arith, e, f, g, keyed-served key header s o),
          )
        ]
      ]
    ]
