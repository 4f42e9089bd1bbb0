-- ===== src/Server/S3.antt =====
-- src/server/s3_routes.rs: the handlers of the S3 routes that are not in Blobs and Content, and the
-- headers of their responses. The text of a time, `to_rfc3339`, is a parameter.
pub mod Escaped
use my_s.Common.{
  Bool, List, Option, Text, [], codes, if◌then◌else◌, none, or_else, some, text_beq, ℕ, ◌++◌, ◌∷◌,
}
use my_s.Database.{Db, Error, Result, err, ok}
use my_s.Keys.{normalize_object_key}
use my_s.Models.{EtagType, ObjectRecord, etag_type_name, md5, parse_etag_type}
use my_s.Objects.Bin.{soft_delete_object_by_filename}
use my_s.Objects.Etags.{list_objects}
use my_s.Server.Blobs.{PutResponse, Store, EngineOutcome, put_object_keyed_in_bucket}
use my_s.Server.Content.{Content, get_object_keyed_with_headers}
use my_s.Server.Http.{
  Handler, StatusCode, answer_with, attempt, http_ok, internal, no_content, on_db, read, reply,
  ◌>>=◌, ◌>>◌,
}
use my_s.Server.Numbers.{decimal}
use my_s.Server.Sharing.{or_bad_request}
use my_s.Sql.Like.{replace}

unfoldable pub xml_escape : Text → Text
unfolding replace
xml_escape s =
    replace 0x22 (codes "&quot;")
      (replace 0x3e (codes "&gt;") (replace 0x3c (codes "&lt;") (replace 0x26 (codes "&amp;") s)))

abbrev contents_element : (ℕ → Text) → ObjectRecord → Text
contents_element to_rfc3339 o =
    codes "<Contents><Key>"
    ++ xml_escape o.original_filename
    ++ codes "</Key><Size>"
    ++ decimal o.filesize_bytes
    ++ codes "</Size><ETag>&quot;"
    ++ xml_escape o.etag
    ++ codes "&quot;</ETag><LastModified>"
    ++ to_rfc3339 o.date_modified
    ++ codes "</LastModified></Contents>"

unfoldable pub contents_elements : (ℕ → Text) → List ObjectRecord → Text
contents_elements to_rfc3339 [] = []
contents_elements to_rfc3339 (o ∷ os) =
    contents_element to_rfc3339 o ++ contents_elements to_rfc3339 os

-- Line breaks are written as the code has them.
abbrev line_break : Text
line_break = 0x0a ∷ []

unfoldable pub get_objects : (ℕ → Text) → Handler Db (StatusCode × Text)
get_objects to_rfc3339 db =
    reply http_ok
      (codes "<?xml version=\"1.0\" encoding=\"UTF-8\"?>"
        ++ line_break
        ++ codes "<ListBucketResult xmlns=\"http://s3.amazonaws.com/doc/2006-03-01/\">"
        ++ line_break
        ++ codes "  <Name>storage</Name>"
        ++ line_break
        ++ codes "  <IsTruncated>false</IsTruncated>"
        ++ line_break
        ++ codes "  "
        ++ contents_elements to_rfc3339 (list_objects db)
        ++ line_break
        ++ codes "</ListBucketResult>")
      db

-- `put_object_keyed`: the default bucket
unfoldable pub put_object : ℕ → Text → Text → EngineOutcome → Handler Store PutResponse
put_object now node_id raw_key stored = do
  key ← or_bad_request (normalize_object_key raw_key)
  λ s. let (r, s') = put_object_keyed_in_bucket now key stored none node_id s in read (λ _. r) s'

-- `get_object_keyed`: no Range header
unfoldable pub get_object : Text → Handler Store Content
get_object raw_key = do
  key ← or_bad_request (normalize_object_key raw_key)
  read (get_object_keyed_with_headers key none)

unfoldable pub delete_object_keyed_in_bucket :
    ℕ → Text → Option ℕ → Handler Db (StatusCode × Unit {0})
delete_object_keyed_in_bucket now key bucket_id = do
  _ ← attempt internal (soft_delete_object_by_filename now key bucket_id)
  answer_with no_content

-- `delete_object_keyed`: any bucket
unfoldable pub delete_object : ℕ → Text → Handler Store (StatusCode × Unit {0})
delete_object now raw_key = do
  key ← or_bad_request (normalize_object_key raw_key)
  on_db (delete_object_keyed_in_bucket now key none)

abbrev parsed_or : EtagType → Option Text → EtagType
parsed_or default none = default
parsed_or default (some s) = elim (parse_etag_type s) [ none ↦ default | some t ↦ t ]

-- The first of the two headers, if there is one.
unfoldable pub resolve_etag_type : Option Text → Option Text → EtagType → EtagType
resolve_etag_type x_amz_meta_etag_type x_etag_type default =
    parsed_or default (or_else x_amz_meta_etag_type x_etag_type)

abbrev custom_headers : Text → EtagType → List (Text × Text)
custom_headers etag md5 = []
custom_headers etag t =
    (codes "x-amz-meta-custom-etag", etag) ∷ (codes "x-amz-meta-etag-type", etag_type_name t) ∷ []

-- The headers of the response to an upload; etags are hexadecimal digits.
unfoldable pub etag_response : Text → EtagType → List (Text × Text)
etag_response etag etag_type =
    (codes "etag", 0x22 ∷ (etag ++ 0x22 ∷ [])) ∷ custom_headers etag etag_type
