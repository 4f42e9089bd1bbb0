-- ===== src/Models/Sharing.antt =====
-- src/db/models.rs: share links; and the rows of `share_link_user`.
use my_s.Common.{ℕ, Option, Bool, true, false, Text}

pub data ShareTargetKind : Type 0 where
  file folder : ShareTargetKind

pub data ShareAccessMode : Type 0 where
  specific_users bucket_readers public : ShareAccessMode

pub record ShareLinkRecord : Type 0 where
  pub id : ℕ
  pub token : Text
  pub short_code : Option Text
  pub bucket_id : ℕ
  pub target_key : Text
  pub target_kind : ShareTargetKind
  pub access_mode : ShareAccessMode
  pub expires_at : Option ℕ
  pub created_by_account_id : ℕ
  pub created_at : ℕ
  pub revoked_at : Option ℕ

pub record ShareLinkUser : Type 0 where
  pub share_id : ℕ
  pub account_id : ℕ

abbrev pub is_file : ShareTargetKind → Bool
is_file file = true
is_file folder = false

abbrev pub is_public : ShareAccessMode → Bool
is_public public = true
is_public _ = false

abbrev pub is_specific_users : ShareAccessMode → Bool
is_specific_users specific_users = true
is_specific_users _ = false
