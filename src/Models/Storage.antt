-- ===== src/Models/Storage.antt =====
-- src/db/models.rs: objects, buckets and the recycle-bin settings.
use my_s.Common.{
  codes, text_beq, none, some, if◌then◌else◌, ℕ, ◌*◌, ◌^◌, ◌-◌, min, Option, Bool, Text,
}

pub data EtagType : Type 0 where
  md5 sha256 sha512 blake2_128 blake2_256 blake3_128 blake3_256 : EtagType

-- The names of the etag types
abbrev pub etag_type_name : EtagType → Text
etag_type_name md5 = codes "md5"
etag_type_name sha256 = codes "sha256"
etag_type_name sha512 = codes "sha512"
etag_type_name blake2_128 = codes "blake2-128"
etag_type_name blake2_256 = codes "blake2-256"
etag_type_name blake3_128 = codes "blake3-128"
etag_type_name blake3_256 = codes "blake3-256"

abbrev named : EtagType → Text → Option EtagType → Option EtagType
named t s other = if text_beq s (etag_type_name t) then some t else other

-- `parse::<EtagType>().ok()`
unfoldable pub parse_etag_type : Text → Option EtagType
unfolding text_beq
parse_etag_type s = named md5 s (
    named sha256 s (
      named sha512 s
        (named blake2_128 s (named blake2_256 s (named blake3_128 s (named blake3_256 s none))))))

pub record ObjectRecord : Type 0 where
  pub id : ℕ
  pub original_filename : Text
  pub filepath : Text
  pub file_format : Text
  pub filesize_bytes : ℕ
  pub etag_type : EtagType
  pub etag : Text
  pub date_uploaded : ℕ
  pub date_modified : ℕ
  pub bucket_id : ℕ
  pub deleted_at : Option ℕ

pub record BucketRecord : Type 0 where
  pub id : ℕ
  pub name : Text
  pub created_utc : ℕ
  pub owner_account_id : Option ℕ
  pub replicate_to_all : Bool
  pub etag_type : EtagType
  pub etag_rehash_status : Option Text
  pub etag_rehash_processed : ℕ
  pub etag_rehash_total : ℕ
  pub etag_rehash_error : Option Text

pub data RetentionUnit : Type 0 where
  second minute hour day month year decade : RetentionUnit

abbrev pub i64_max : ℕ
i64_max = 2 ^ 63 - 1

abbrev pub unit_secs : RetentionUnit → ℕ
unit_secs second = 1
unit_secs minute = 60
unit_secs hour = 3600
unit_secs day = 86400
unit_secs month = 30 * 86400
unit_secs year = 365 * 86400
unit_secs decade = 3650 * 86400

-- `saturating_mul` of a value that is not negative, as every stored one is
unfoldable pub to_seconds : RetentionUnit → ℕ → ℕ
to_seconds unit value = min (value * unit_secs unit) i64_max

pub record AppSettings : Type 0 where
  pub recycle_retention_value : ℕ
  pub recycle_retention_unit : RetentionUnit
