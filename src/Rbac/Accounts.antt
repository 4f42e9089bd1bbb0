-- ===== src/Rbac/Accounts.antt =====
-- src/db/rbac.rs: accounts. The password hash is the value that Argon2 returns.
pub mod Unique
use my_s.Common.{
  Bool, List, Option, Text, [], any, compared_ids, compared_texts, delete, false, first,
  if◌then◌else◌, leb, length, map, nat_beq, none, not, opt_beq, order_by, select, some, text_beq,
  text_leb, trim_end_matches, trim_start_matches, true, update, ℕ, ◌++◌, ◌+◌, ◌||◌, ◌∷◌,
}
use my_s.Database.{
  Db, Exec, account_not_found, context, err, foreign_key_violation, ok, unique_violation,
}
use my_s.Models.{
  AccountRecord, AccountRole, BucketRecord, SessionRow, ShareLinkRecord, ShareLinkUser,
}

abbrev pub has_account_id : ℕ → AccountRecord → Bool
has_account_id id a = nat_beq a.id id

unfoldable pub account_count : Db → ℕ
account_count db = length db.accounts

unfoldable pub get_account_by_id : ℕ → Db → Option AccountRecord
get_account_by_id id db = first (has_account_id id) db.accounts

unfoldable pub get_account_by_username : Text → Db → Option AccountRecord
get_account_by_username username_hex db =
    first (λ (a : AccountRecord). text_beq a.username_hex username_hex) db.accounts

-- A nullable foreign key: no value, or the id of a row.
abbrev pub account_exists : Db → Option ℕ → Bool
account_exists db none = true
account_exists db (some id) = any (has_account_id id) db.accounts

abbrev pub new_account : ℕ → ℕ → Text → Text → Text → Option ℕ → AccountRecord
new_account id now username_hex password_hash display_name created_by = record {
  id = id;
  username_hex = username_hex;
  password_hash = password_hash;
  display_name = display_name;
  is_disabled = false;
  created_utc = now;
  updated_utc = now;
  created_by_account_id = created_by;
}

unfoldable pub create_account : ℕ → Text → Text → Text → Option ℕ → Exec Db AccountRecord
create_account now username_hex password_hash display_name created_by db =
    if any (λ (a : AccountRecord). text_beq a.username_hex username_hex) db.accounts
    then (err unique_violation, db)
    else if not (account_exists db created_by)
    then (err foreign_key_violation, db)
    else let account =
        new_account db.next_account now username_hex password_hash display_name created_by in
      let db' : Db = record db {
        accounts = db.accounts ++ account ∷ [];
        next_account = db.next_account + 1;
      } in
      context (get_account_by_id db.next_account db') account_not_found db'

abbrev creator : Option AccountRecord → Option ℕ
creator none = none
creator (some a) = a.created_by_account_id

-- True if `actor_id` created `account_id`.
unfoldable pub account_created_by : ℕ → ℕ → Db → Bool
account_created_by account_id actor_id db =
    opt_beq (creator (get_account_by_id account_id db)) actor_id

abbrev update_account : ℕ → (AccountRecord → AccountRecord) → Exec Db (Unit {0})
update_account id f db =
    if any (has_account_id id) db.accounts
    then (ok tt, record db { accounts = update (has_account_id id) f db.accounts })
    else (err account_not_found, db)

unfoldable pub set_account_disabled : ℕ → ℕ → Bool → Exec Db (Unit {0})
set_account_disabled now id disabled =
    update_account id (λ a. record a { is_disabled = disabled; updated_utc = now })

unfoldable pub update_account_display_name : ℕ → ℕ → Text → Exec Db (Unit {0})
update_account_display_name now id display_name =
    update_account id (λ a. record a { display_name = display_name; updated_utc = now })

unfoldable pub set_account_password : ℕ → ℕ → Text → Exec Db (Unit {0})
set_account_password now id password_hash =
    update_account id (λ a. record a { password_hash = password_hash; updated_utc = now })

abbrev clear_owner : ℕ → BucketRecord → BucketRecord
clear_owner id b = if opt_beq b.owner_account_id id then record b { owner_account_id = none } else b

abbrev pub clear_creator : ℕ → AccountRecord → AccountRecord
clear_creator id a =
    if opt_beq a.created_by_account_id id then record a { created_by_account_id = none } else a

-- Rows of `share_link` and `share_link_user` that refer to the account forbid its deletion; roles
-- and sessions go with it, and buckets and accounts forget it.
unfoldable pub delete_account : ℕ → Exec Db Bool
delete_account id db =
    if not (any (has_account_id id) db.accounts)
    then (ok false, db)
    else if any (λ (s : ShareLinkRecord). nat_beq s.created_by_account_id id) db.shares
        || any (λ (u : ShareLinkUser). nat_beq u.account_id id) db.share_users
    then (err foreign_key_violation, db)
    else (
      ok true,
      record db {
        accounts = map (clear_creator id) (delete (has_account_id id) db.accounts);
        buckets = map (clear_owner id) db.buckets;
        account_roles = delete (λ (r : AccountRole). nat_beq r.account_id id) db.account_roles;
        sessions = delete (λ (s : SessionRow). nat_beq s.account_id id) db.sessions;
      },
    )

-- ORDER BY created_utc ASC
unfoldable pub list_accounts : Db → List AccountRecord
list_accounts db = order_by (λ (a b : AccountRecord). leb a.created_utc b.created_utc) db.accounts

abbrev or_username : Text → Text → Text
or_username [] username_hex = username_hex
or_username (c ∷ name) username_hex = c ∷ name

-- COALESCE(NULLIF(TRIM(display_name), ''), username_hex): SQL trims spaces only.
abbrev label : AccountRecord → ℕ × Text
label a = (
  a.id,
  or_username (trim_end_matches (nat_beq 0x20) (trim_start_matches (nat_beq 0x20) a.display_name))
      a.username_hex,
)

-- ORDER BY label ASC, id ASC
abbrev label_leb : ℕ × Text → ℕ × Text → Bool
label_leb (i, s) (j, t) = if text_beq s t then leb i j else text_leb s t

unfoldable pub list_account_directory : Db → List (ℕ × Text)
list_account_directory db =
    order_by label_leb (map label (select (λ (a : AccountRecord). not a.is_disabled) db.accounts))
