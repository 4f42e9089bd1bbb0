-- ===== src/Rbac/Sessions.antt =====
-- src/db/rbac.rs: login sessions. The token is the value that the random generator returns.
pub mod Lockout
pub mod Created
use my_s.Common.{
  Bool, Option, Text, [], any, delete, first, if◌then◌else◌, ltb, nat_beq, none, not, some,
  text_beq, ℕ, ◌++◌, ◌+◌, ◌∷◌,
}
use my_s.Database.{Db, Exec, err, foreign_key_violation, ok, unique_violation}
use my_s.Models.{AccountRecord, SessionRow}
use my_s.Rbac.Accounts.{get_account_by_id, has_account_id}

abbrev pub has_token : Text → SessionRow → Bool
has_token token s = text_beq s.token token

-- `now + ttl` is the expiry that is stored.
unfoldable pub create_session : ℕ → Text → ℕ → ℕ → Exec Db (Text × ℕ)
create_session now token account_id ttl db =
    if any (has_token token) db.sessions
    then (err unique_violation, db)
    else if not (any (has_account_id account_id) db.accounts)
    then (err foreign_key_violation, db)
    else (
      ok (token, now + ttl),
      record db {
        sessions =
            db.sessions
            ++ record { token = token; account_id = account_id; expires_utc = now + ttl } ∷ [];
      },
    )

unfoldable pub delete_session : Text → Db → Db
delete_session token db = record db { sessions = delete (has_token token) db.sessions }

unfoldable pub delete_sessions_for_account : ℕ → Db → Db
delete_sessions_for_account account_id db = record db {
  sessions = delete (λ (s : SessionRow). nat_beq s.account_id account_id) db.sessions;
}

abbrev resolve_account : Text → Option AccountRecord → Db → Option AccountRecord × Db
resolve_account token none db = (none, db)
resolve_account token (some a) db =
    if a.is_disabled then (none, delete_session token db) else (some a, db)

abbrev resolve_row : ℕ → Text → Option SessionRow → Db → Option AccountRecord × Db
resolve_row now token none db = (none, db)
resolve_row now token (some s) db =
    if ltb s.expires_utc now
    then (none, delete_session token db)
    else resolve_account token (get_account_by_id s.account_id db) db

-- The account of a session that is there, has not expired and is not that of a disabled account;
-- an expired session and that of a disabled account are deleted.
unfoldable pub resolve_session : ℕ → Text → Db → Option AccountRecord × Db
unfolding delete_session
resolve_session now token db = resolve_row now token (first (has_token token) db.sessions) db
