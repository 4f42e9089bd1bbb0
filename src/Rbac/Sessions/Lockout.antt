-- ===== src/Rbac/Sessions/Lockout.antt =====
-- src/db/rbac.rs: whom a session token lets in, and for how long.
use my_s.Common.{
  List, Option-cases, Text, [], arith, false, first, inl, inr, some, true, update, ℕ, ◌∷◌, ◌≡◌, ◌≢◌,
  ◌≤◌,
}
use my_s.Database.{Db, ok}
use my_s.Models.{AccountRecord, SessionRow}
use my_s.Rbac.Accounts.{get_account_by_id, has_account_id, set_account_disabled}
use my_s.Rbac.Sessions.{has_token, resolve_session}

-- A token that resolves is that of a stored session of the account, which has not expired; the
-- account is stored and enabled, and the database is left as it was.
resolve_session-some :
    (now : ℕ) (token : Text) (db : Db) (a : AccountRecord)
    → (resolve_session now token db).0 ≡ some a
    → (s : SessionRow) × (first (has_token token) db.sessions ≡ some s)
      × (now ≤ s.expires_utc)
      × (get_account_by_id s.account_id db ≡ some a)
      × (a.is_disabled ≡ false)
      × ((resolve_session now token db).1 ≡ db)
unfolding resolve_session
resolve_session-some now token db a h = elim (Option-cases (first (has_token token) db.sessions)) [
  | inl e ↦ absurd (ground arith)
  | inr (s, e) ↦ (s, e, ground arith, ground arith, ground arith, ground arith)
]

abbrev disable : ℕ → AccountRecord → AccountRecord
disable now a = record a { is_disabled = true; updated_utc = now }

first-disabled :
    (now id k : ℕ) (l : List AccountRecord) (a : AccountRecord)
    → first (has_account_id k) (update (has_account_id id) (disable now) l) ≡ some a
    → a.id ≡ id
    → a.is_disabled ≡ true
unfolding first update
first-disabled now id k [] a h e = ground arith
first-disabled now id k (b ∷ l) a h e = ground (arith, first-disabled now id k l a)

disabled-accounts :
    (now id : ℕ) (db db' : Db)
    → set_account_disabled now id true db ≡ (ok tt, db')
    → db'.accounts ≡ update (has_account_id id) (disable now) db.accounts
unfolding set_account_disabled
disabled-accounts now id db db' h = ground arith

-- From the moment an account is disabled no token resolves to it, whenever it is used and whatever
-- sessions are stored.
pub disabled-locked_out :
    (now later id : ℕ) (token : Text) (db db' : Db) (a : AccountRecord)
    → set_account_disabled now id true db ≡ (ok tt, db')
    → (resolve_session later token db').0 ≡ some a
    → a.id ≢ id
unfolding get_account_by_id
disabled-locked_out now later id token db db' a h r e =
    let (s, _, _, found, enabled, _) = resolve_session-some later token db' a r in
    let found' : first (has_account_id s.account_id)
          (update (has_account_id id) (disable now) db.accounts)
        ≡ some a =
      rw (← disabled-accounts now id db db' h) found in
    cc (enabled, first-disabled now id s.account_id db.accounts a found' e)
