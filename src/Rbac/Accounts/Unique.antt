-- ===== src/Rbac/Accounts/Unique.antt =====
-- src/db/rbac.rs with migrations/0003_settings_rbac.sql: no two accounts have the same id.
use my_s.Common.{
  Bool, Bool-cases, List, Option, Text, [], any, any-append, arith, false, first, inl, inr, ltb,
  refl, some, text_beq, true, ℕ, ◌++◌, ◌+◌, ◌∷◌, ◌≡◌,
}
use my_s.Database.{Db}
use my_s.Models.{AccountRecord}
use my_s.Rbac.Accounts.{account_exists, create_account, has_account_id, new_account}

unfoldable pub UniqueAccounts : List AccountRecord → Type 0
UniqueAccounts [] = Unit
UniqueAccounts (a ∷ l) = (any (has_account_id a.id) l ≡ false) × UniqueAccounts l

unfoldable pub AccountsBelow : ℕ → List AccountRecord → Type 0
AccountsBelow n [] = Unit
AccountsBelow n (a ∷ l) = (ltb a.id n ≡ true) × AccountsBelow n l

-- The ids differ, and the next one is new.
unfoldable pub ValidAccounts : Db → Type 0
ValidAccounts db = UniqueAccounts db.accounts × AccountsBelow db.next_account db.accounts

other_account :
    (p : AccountRecord → Bool) (x a : AccountRecord) (l : List AccountRecord)
    → any (has_account_id x.id) l ≡ false
    → first p l ≡ some a
    → has_account_id a.id x ≡ false
unfolding any first
other_account p x a [] h f = ground arith
other_account p x a (y ∷ l) h f = ground (arith, other_account p x a l)

-- A row that a query finds is the one that has its id.
pub first_by_id :
    (p : AccountRecord → Bool) (l : List AccountRecord) (a : AccountRecord)
    → UniqueAccounts l
    → first p l ≡ some a
    → first (has_account_id a.id) l ≡ some a
unfolding first UniqueAccounts
first_by_id p [] a u h = ground arith
first_by_id p (x ∷ l) a u h = elim (Bool-cases (p x)) [
  | inl e ↦ ground arith
  | inr e ↦ ground (arith, other_account p x a l u.0, first_by_id p l a u.1)
]

UniqueAccounts-append :
    (x : AccountRecord) (l : List AccountRecord)
    → UniqueAccounts l
    → any (has_account_id x.id) l ≡ false
    → UniqueAccounts (l ++ x ∷ [])
unfolding UniqueAccounts any
UniqueAccounts-append x [] u h = (refl, tt)
UniqueAccounts-append x (a ∷ l) u h =
    ground (arith, any-append (has_account_id a.id) l (x ∷ []), UniqueAccounts-append x l)

AccountsBelow-append :
    (n : ℕ) (x : AccountRecord) (l : List AccountRecord)
    → AccountsBelow n l
    → x.id ≡ n
    → AccountsBelow (n + 1) (l ++ x ∷ [])
unfolding AccountsBelow
AccountsBelow-append n x [] b h = (ground arith, tt)
AccountsBelow-append n x (a ∷ l) b h = (ground arith, AccountsBelow-append n x l b.1 h)

pub fresh_account :
    (n : ℕ) (l : List AccountRecord) → AccountsBelow n l → any (has_account_id n) l ≡ false
unfolding AccountsBelow any
fresh_account n [] b = refl
fresh_account n (a ∷ l) b = ground (arith, fresh_account n l b.1)

-- Accounts are created with new ids.
pub create_account-ValidAccounts :
    (now : ℕ) (username_hex password_hash display_name : Text) (created_by : Option ℕ) (db : Db)
    → ValidAccounts db
    → ValidAccounts (create_account now username_hex password_hash display_name created_by db).1
unfolding create_account ValidAccounts
create_account-ValidAccounts now u p d c db v =
    elim (Bool-cases (any (λ (a : AccountRecord). text_beq a.username_hex u) db.accounts)) [
      | inl e ↦ ground arith
      | inr e ↦ elim (Bool-cases (account_exists db c)) [
        | inr k ↦ ground arith
        | inl k ↦ ground (
          arith,
          fresh_account db.next_account db.accounts v.1,
          UniqueAccounts-append (new_account db.next_account now u p d c) db.accounts v.0,
          AccountsBelow-append db.next_account (new_account db.next_account now u p d c) db.accounts
              v.1,
        )
      ]
    ]
