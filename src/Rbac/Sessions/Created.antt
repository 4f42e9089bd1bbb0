-- ===== src/Rbac/Sessions/Created.antt =====
-- src/db/rbac.rs: what a new session's token stands for.
use my_s.Common.{
  Bool-cases, Text, [], any, arith, false, first, first-append, inl, inr, some, text_beq_refl, true,
  ℕ, ◌+◌, ◌∷◌, ◌≡◌, ◌≤◌,
}
use my_s.Database.{Db, ok}
use my_s.Models.{AccountRecord}
use my_s.Rbac.Accounts.{get_account_by_id, has_account_id}
use my_s.Rbac.Sessions.{create_session, has_token, resolve_session}

new_token :
    (now account_id ttl : ℕ) (token : Text) (db : Db)
    → any (has_token token) db.sessions ≡ false
    → any (has_account_id account_id) db.accounts ≡ true
    → first (has_token token) (create_session now token account_id ttl db).1.sessions
      ≡ some (record { token = token; account_id = account_id; expires_utc = now + ttl })
unfolding create_session first any
new_token now id ttl token db h k = ground (
  arith,
  text_beq_refl token,
  first-append (has_token token) db.sessions
      (record { token = token; account_id = id; expires_utc = now + ttl } ∷ []),
)

-- A session is created if the token is new and the account is stored.
pub create_session-ok :
    (now account_id ttl : ℕ) (token : Text) (r : Text × ℕ) (db db' : Db)
    → create_session now token account_id ttl db ≡ (ok r, db')
    → (r ≡ (token, now + ttl))
      × (first (has_token token) db'.sessions
          ≡ some (record { token = token; account_id = account_id; expires_utc = now + ttl }))
      × (db'.accounts ≡ db.accounts)
      × (db'.account_roles ≡ db.account_roles)
      × (db'.roles ≡ db.roles)
unfolding create_session
create_session-ok now id ttl token r db db' h =
    elim (Bool-cases (any (has_token token) db.sessions)) [
      | inl e ↦ absurd (ground arith)
      | inr e ↦ elim (Bool-cases (any (has_account_id id) db.accounts)) [
        | inl k ↦ (
          ground arith,
          ground (arith, new_token now id ttl token db e k),
          ground arith,
          ground arith,
          ground arith,
        )
        | inr k ↦ absurd (ground arith)
      ]
    ]

-- A new session of a stored and enabled account lets its token in as this account until the session
-- expires.
pub create_session-resolve_session :
    (now later account_id ttl : ℕ) (token : Text) (r : Text × ℕ) (db db' : Db) (a : AccountRecord)
    → later ≤ now + ttl
    → create_session now token account_id ttl db ≡ (ok r, db')
    → get_account_by_id account_id db ≡ some a
    → a.is_disabled ≡ false
    → (resolve_session later token db').0 ≡ some a
unfolding resolve_session get_account_by_id
create_session-resolve_session now later id ttl token r db db' a l h g d =
    let (_, s, k, _, _) = create_session-ok now id ttl token r db db' h in ground (arith, s, k)
