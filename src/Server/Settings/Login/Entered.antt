-- ===== src/Server/Settings/Login/Entered.antt =====
-- src/server/settings_routes.rs: whom a login lets in.
use my_s.Common.{
  Bool, Option, Option-cases, Text, ap, arith, false, inl, inr, some, text_beq, trim, true, ℕ, ◌+◌,
  ◌∙◌, ◌≡◌, ◌≤◌,
}
use my_s.Database.{Db, Result-cases, ok}
use my_s.Models.{AccountRecord}
use my_s.Rbac.Accounts.{get_account_by_id, get_account_by_username}
use my_s.Rbac.Accounts.Unique.{ValidAccounts, first_by_id}
use my_s.Rbac.Sessions.{create_session, resolve_session}
use my_s.Rbac.Sessions.Created.{create_session-ok, create_session-resolve_session}
use my_s.Server.Http.{StatusCode, served}
use my_s.Server.Settings.Login.{LoginReply, auth_login, seven_days}

-- What a login is made of.
login_parts :
    (verify_password : Text → Text → Option Bool) (now : ℕ) (token username_hex password_hex : Text)
    (status : StatusCode) (body : LoginReply) (db db' : Db)
    → auth_login verify_password now token username_hex password_hex db
      ≡ (served (status, body), db')
    → (a : AccountRecord) × (r : Text × ℕ) × (get_account_by_username (trim username_hex) db
        ≡ some a)
      × (a.is_disabled ≡ false)
      × (verify_password (trim password_hex) a.password_hash ≡ some true)
      × (create_session now token a.id seven_days db ≡ (ok r, db'))
      × (body.account_id ≡ a.id)
      × (body.session_token ≡ r.0)
unfolding auth_login
login_parts vp now token u p status body db db' h =
    elim (Option-cases (get_account_by_username (trim u) db)) [
      | inl e ↦ absurd (ground arith)
      | inr (a, e) ↦ elim (Result-cases (create_session now token a.id seven_days db).0) [
        | inr (x, k) ↦ absurd (ground arith)
        | inl (r, k) ↦
            (a, r, e, ground arith, ground arith, ground arith, ground arith, ground arith)
      ]
    ]

-- A login that is answered without an error is one with the name and the password of an account that
-- is enabled; and if the ids of the accounts differ and the random token is not that of a session,
-- the token that it returns stands for this account for seven days.
pub auth_login-resolve_session :
    (verify_password : Text → Text → Option Bool) (now later : ℕ)
    (token username_hex password_hex : Text) (status : StatusCode) (body : LoginReply) (db db' : Db)
    → ValidAccounts db
    → later ≤ now + seven_days
    → auth_login verify_password now token username_hex password_hex db
      ≡ (served (status, body), db')
    → (a : AccountRecord) × (get_account_by_username (trim username_hex) db ≡ some a)
      × (a.is_disabled ≡ false)
      × (verify_password (trim password_hex) a.password_hash ≡ some true)
      × (body.account_id ≡ a.id)
      × ((resolve_session later body.session_token db').0 ≡ some a)
unfolding get_account_by_username ValidAccounts get_account_by_id
auth_login-resolve_session vp now later token u p status body db db' v l h =
    let (a, r, e, d, c, k, i, t) = login_parts vp now token u p status body db db' h in
    let found =
      first_by_id (λ (b : AccountRecord). text_beq b.username_hex (trim u)) db.accounts a v.0 e in
    (
      a,
      e,
      d,
      c,
      i,
      ap (λ x. (resolve_session later x db').0)
            (t
              ∙ ap (λ (x : Text × ℕ). x.0)
                  (create_session-ok now a.id seven_days token r db db' k).0)
          ∙ (create_session-resolve_session now later a.id seven_days token r db db' a l k found d),
    )
