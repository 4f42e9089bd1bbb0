-- ===== src/Tests/Data.antt =====
-- A small database: two buckets, two accounts, two peers, three objects and two share links.
use my_s.Common.{
  Bool, Option, Text, [], any, codes, false, none, pos, refl, some, text_beq, true, ℕ, ◌∷◌,
}
use my_s.Database.{Db}
use my_s.Models.{
  AccountRecord, BucketRecord, ClusterPeer, ObjectRecord, ShareAccessMode, ShareLinkRecord,
  ShareTargetKind, bucket_readers, day, file, folder, hard, md5, public, soft,
}
use my_s.Objects.Rows.Unique.{BelowNext, IsValid, UniqueRows}

abbrev pub object_row : ℕ → Text → Text → ℕ → ℕ → Option ℕ → ObjectRecord
object_row id key path size b deleted = record {
  id = id;
  original_filename = key;
  filepath = path;
  file_format = codes "jpg";
  filesize_bytes = size;
  etag_type = md5;
  etag = codes "e0";
  date_uploaded = 100;
  date_modified = 100;
  bucket_id = b;
  deleted_at = deleted;
}

abbrev pub bucket_row : ℕ → Text → Option ℕ → Bool → BucketRecord
bucket_row id name owner to_all = record {
  id = id;
  name = name;
  created_utc = 1;
  owner_account_id = owner;
  replicate_to_all = to_all;
  etag_type = md5;
  etag_rehash_status = none;
  etag_rehash_processed = 0;
  etag_rehash_total = 0;
  etag_rehash_error = none;
}

abbrev pub account_row : ℕ → Text → AccountRecord
account_row id name = record {
  id = id;
  username_hex = name;
  password_hash = codes "hash";
  display_name = name;
  is_disabled = false;
  created_utc = 1;
  updated_utc = 1;
  created_by_account_id = none;
}

abbrev pub peer_row : Text → Bool → ClusterPeer
peer_row id active = record {
  id = id;
  wireguard_endpoint = codes "10.0.0.2";
  is_active = active;
  last_heartbeat_utc = none;
}

abbrev pub share_for : ℕ → Text → Text → ShareTargetKind → ShareAccessMode → ShareLinkRecord
share_for id token key kind mode = record {
  id = id;
  token = token;
  short_code = none;
  bucket_id = 2;
  target_key = key;
  target_kind = kind;
  access_mode = mode;
  expires_at = none;
  created_by_account_id = 1;
  created_at = 50;
  revoked_at = none;
}

abbrev pub cat_key : Text
cat_key = codes "a/b"

abbrev pub cat : ObjectRecord
cat = object_row 1 cat_key (codes "u1") 10 2 none

abbrev pub folder_share : ShareLinkRecord
folder_share = share_for 1 (codes "t1") (codes "a/") folder bucket_readers

abbrev pub public_link : ShareLinkRecord
public_link = share_for 2 (codes "t2") cat_key file public

abbrev pub sample : Db
sample = record {
  objects =
      cat
      ∷ object_row 2 (codes "c") (codes "u2") 5 2 none
      ∷ object_row 3 cat_key (codes "u3") 7 2 (some 20)
      ∷ [];
  next_object = 4;
  buckets = bucket_row 1 (codes "storage") none true ∷ bucket_row 2 (codes "p") (some 1) false ∷ [];
  next_bucket = 3;
  accounts = account_row 1 (codes "61") ∷ account_row 2 (codes "62") ∷ [];
  next_account = 3;
  roles = record { id = 1; name = codes "r"; position = pos 0; is_owner = false } ∷ [];
  next_role = 2;
  account_roles = record { account_id = 2; role_id = 1 } ∷ [];
  permissions =
      record {
        role_id = 1;
        bucket_id = 2;
        can_create = false;
        can_read = true;
        can_update = false;
        can_delete = false;
      }
      ∷ [];
  sessions =
      record { token = codes "s1"; account_id = 1; expires_utc = 500 }
      ∷ record { token = codes "s2"; account_id = 2; expires_utc = 500 }
      ∷ [];
  settings = record { recycle_retention_value = 30; recycle_retention_unit = day };
  peers = peer_row (codes "n1") true ∷ peer_row (codes "n2") true ∷ [];
  assignments =
      record { bucket_id = 2; peer_id = codes "n1"; allocated_bytes = 100; quota_mode = hard }
      ∷ record { bucket_id = 2; peer_id = codes "n2"; allocated_bytes = 50; quota_mode = soft }
      ∷ [];
  outbox = [];
  next_outbox = 1;
  shares = folder_share ∷ public_link ∷ [];
  next_share = 3;
  share_users = [];
}

pub sample-IsValid : IsValid sample
unfolding IsValid UniqueRows BelowNext any text_beq
sample-IsValid = ((refl, (refl, (refl, tt))), (refl, (refl, (refl, tt))))
