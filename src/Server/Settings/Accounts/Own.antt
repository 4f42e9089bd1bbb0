-- ===== src/Server/Settings/Accounts/Own.antt =====
-- src/server/settings_routes.rs: an account's changes to itself.
use my_s.Common.{
  Bool, Bool-cases, Option, Text, any, any-delete, any-map_kept, any-update, arith, delete, false,
  inl, inr, nat_beq, none, not, some, true, ℕ, ◌&&◌, ◌≡◌,
}
use my_s.Database.{Db}
use my_s.Models.{AccountRecord}
use my_s.Rbac.Accounts.{
  account_created_by, clear_creator, delete_account, has_account_id, set_account_disabled,
  update_account_display_name,
}
use my_s.Rbac.Permissions.{account_is_owner}
use my_s.Rbac.Sessions.{delete_sessions_for_account}
use my_s.Server.Auth.{require_owner}
use my_s.Server.Http.{answer_with, attempt, forbidden, internal, no_content, ◌>>◌}
use my_s.Server.Http.Kept.{bind-keeps, demand-keeps}
use my_s.Server.Settings.Accounts.{
  delete_account_by, deleted_status, patch_account, rename, set_disabled,
}

-- The account is stored and enabled.
abbrev pub can_enter : ℕ → AccountRecord → Bool
can_enter auth a = has_account_id auth a && not a.is_disabled

abbrev MayEnter : ℕ → Db → Type 0
MayEnter auth db = any (can_enter auth) db.accounts ≡ true

set_account_disabled-other :
    (now auth id : ℕ) (disabled : Bool) (db : Db)
    → (disabled && nat_beq id auth) ≡ false
    → any (can_enter auth) db.accounts ≡ true
    → any (can_enter auth) (set_account_disabled now id disabled db).1.accounts ≡ true
unfolding set_account_disabled
set_account_disabled-other now auth id disabled db h k =
    elim (Bool-cases (any (has_account_id id) db.accounts)) [
      | inl e ↦ rw e (
          any-update (can_enter auth) (has_account_id id)
            (λ a. record a { is_disabled = disabled; updated_utc = now }) db.accounts
            (λ x i j. ground arith) k)
      | inr e ↦ rw e k
    ]

update_account_display_name-kept :
    (now auth id : ℕ) (name : Text) (db : Db)
    → any (can_enter auth) db.accounts ≡ true
    → any (can_enter auth) (update_account_display_name now id name db).1.accounts ≡ true
unfolding update_account_display_name
update_account_display_name-kept now auth id name db k =
    elim (Bool-cases (any (has_account_id id) db.accounts)) [
      | inl e ↦ rw e (
          any-update (can_enter auth) (has_account_id id)
            (λ a. record a { display_name = name; updated_utc = now }) db.accounts
            (λ x i j. ground arith) k)
      | inr e ↦ rw e k
    ]

delete_account-other :
    (auth id : ℕ) (db : Db)
    → nat_beq id auth ≡ false
    → any (can_enter auth) db.accounts ≡ true
    → any (can_enter auth) (delete_account id db).1.accounts ≡ true
unfolding delete_account
delete_account-other auth id db h k = ground (
  arith,
  any-map_kept (can_enter auth) (clear_creator id) (delete (has_account_id id) db.accounts)
      (λ x i. ground arith),
  any-delete (can_enter auth) (has_account_id id) db.accounts (λ x i. ground arith),
)

renamed-kept :
    (now auth id : ℕ) (name : Option Text) (db : Db)
    → any (can_enter auth) db.accounts ≡ true
    → any (can_enter auth) (rename now id name db).1.accounts ≡ true
renamed-kept now auth id none db k = k
renamed-kept now auth id (some name) db k = update_account_display_name-kept now auth id name db k

set_disabled-kept :
    (now auth id : ℕ) (flag : Option Bool) (db : Db)
    → any (can_enter auth) db.accounts ≡ true
    → any (can_enter auth) (set_disabled now auth id flag db).1.accounts ≡ true
unfolding delete_sessions_for_account
set_disabled-kept now auth id none db k = k
set_disabled-kept now auth id (some disabled) db k =
    elim (Bool-cases (disabled && nat_beq id auth)) [
      | inl e ↦ rw e k
      | inr e ↦ ground (arith, set_account_disabled-other now auth id disabled db e k)
    ]

delete_account_by-own :
    (auth id : ℕ) (db : Db)
    → any (can_enter auth) db.accounts ≡ true
    → any (can_enter auth) (delete_account_by auth id db).1.accounts ≡ true
unfolding delete_account_by
delete_account_by-own auth id db k = elim (Bool-cases (nat_beq id auth)) [
  | inl e ↦ rw e k
  | inr e ↦ elim (Bool-cases (account_created_by id auth db)) [
    | inr c ↦ rw (e, c) k
    | inl c ↦
        rw (e, c)
          (bind-keeps (MayEnter auth) (attempt internal (delete_account id))
            (λ found. answer_with (deleted_status found)) (λ s. delete_account-other auth id s e)
            (λ _ s p. p) db k)
  ]
]

-- Whatever the request, an enabled account that patches or deletes accounts is still stored and
-- enabled afterwards.
pub patch_account-own :
    (now auth id : ℕ) (name : Option Text) (flag : Option Bool) (db : Db)
    → any (can_enter auth) db.accounts ≡ true
    → (any (can_enter auth) (patch_account now auth id name flag db).1.accounts ≡ true)
      × (any (can_enter auth) (delete_account_by auth id db).1.accounts ≡ true)
unfolding patch_account
patch_account-own now auth id name flag db k = (
  bind-keeps (MayEnter auth) (require_owner auth)
      (λ _. rename now id name >> (set_disabled now auth id flag >> answer_with no_content))
      (demand-keeps (MayEnter auth) (account_is_owner auth) forbidden)
      (λ _.
        bind-keeps (MayEnter auth) (rename now id name)
          (λ _. set_disabled now auth id flag >> answer_with no_content)
          (renamed-kept now auth id name)
          (λ _.
            bind-keeps (MayEnter auth) (set_disabled now auth id flag) (λ _. answer_with no_content)
              (set_disabled-kept now auth id flag) (λ _ s p. p)))
      db k,
  delete_account_by-own auth id db k,
)
