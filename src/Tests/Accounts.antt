-- ===== src/Tests/Accounts.antt =====
-- Runs of the theorems on accounts, sessions and buckets.
use my_s.Common.{any, codes, first, refl, text_beq, true, update, ◌&&◌, ◌||◌, ◌≡◌, ◌≢◌}
use my_s.Models.{read_action}
use my_s.Rbac.Accounts.{get_account_by_id, set_account_disabled}
use my_s.Rbac.Permissions.{
  account_is_owner, account_owns_bucket, allows, applies, check_perm, perms_of,
}
use my_s.Rbac.Permissions.Checks.{check_perm_iff}
use my_s.Rbac.Sessions.{resolve_session}
use my_s.Rbac.Sessions.Lockout.{disabled-locked_out}
use my_s.Tests.Data.{account_row, sample}

check_perm_iff_example : check_perm 2 2 read_action sample ≡ (
    account_owns_bucket 2 2 sample
    || account_is_owner 2 sample
    || any (λ r. applies 2 2 sample r && allows read_action (perms_of r)) sample.permissions)
check_perm_iff_example = check_perm_iff 2 2 read_action sample

disabled-locked_out_example : (account_row 2 (codes "62")).id ≢ 1
unfolding resolve_session get_account_by_id first text_beq set_account_disabled update any
disabled-locked_out_example =
    disabled-locked_out 100 200 1 (codes "s2") sample (set_account_disabled 100 1 true sample).1
      (account_row 2 (codes "62")) refl refl
