-- ===== src/Server/Settings/Accounts/Renewed.antt =====
-- src/server/settings_routes.rs: passwords that are generated again.
use my_s.Common.{
  Bool, Bool-cases, List, Option, Text, [], any, any-first, ap, arith, delete, false, first,
  first-holds, inl, inr, nat_beq, refl, some, text_beq, trim, true, update, ℕ, ◌+◌, ◌∙◌, ◌∷◌, ◌≡◌,
}
use my_s.Database.{Db}
use my_s.Models.{AccountRecord, SessionRow}
use my_s.Rbac.Accounts.{
  get_account_by_id, get_account_by_username, has_account_id, set_account_password,
}
use my_s.Rbac.Accounts.Unique.{UniqueAccounts}
use my_s.Rbac.Permissions.{account_is_owner}
use my_s.Rbac.Sessions.{create_session, delete_sessions_for_account, has_token}
use my_s.Server.Http.{http_ok, served}
use my_s.Server.Settings.Accounts.{regenerate_password}
use my_s.Server.Settings.Login.{auth_login, session_cookie, seven_days}

found_after :
    (id : ℕ) (f : AccountRecord → AccountRecord) (p : AccountRecord → Bool) (l : List AccountRecord)
    (a : AccountRecord)
    → ((x : AccountRecord) → p (f x) ≡ p x)
    → ((x : AccountRecord) → (f x).id ≡ x.id)
    → first p l ≡ some a
    → a.id ≡ id
    → UniqueAccounts l
    → first p (update (has_account_id id) f l) ≡ some (f a)
unfolding first update UniqueAccounts
found_after id f p [] a h i e k u = ground arith
found_after id f p (x ∷ l) a h i e k u = elim (Bool-cases (p x)) [
  | inl c ↦ ground (arith, h x, i x)
  | inr c ↦ ground (arith, h x, found_after id f p l a h i)
]

any-delete_none :
    {A : Type 0} (p q : A → Bool) (l : List A) → any p l ≡ false → any p (delete q l) ≡ false
unfolding any delete
any-delete_none p q [] h = refl
any-delete_none p q (x ∷ l) h = ground (arith, any-delete_none p q l)

module _ (hash_password : Text → Text) (now auth id : ℕ) (password : Text) (a : AccountRecord)
    (db : Db) (g : get_account_by_id id db ≡ some a) where
  abbrev renewed : AccountRecord → AccountRecord
  renewed x = record x { password_hash = hash_password password; updated_utc = now }

  abbrev renewed_db : Db
  renewed_db = record db {
    accounts = update (has_account_id id) renewed db.accounts;
    sessions = delete (λ (s : SessionRow). nat_beq s.account_id id) db.sessions;
  }

  regenerated :
      account_is_owner auth db ≡ true
      → regenerate_password hash_password now auth id password db ≡ (
        served (http_ok, record { username_hex = a.username_hex; password_hex = password }),
        renewed_db,
      )
  unfolding regenerate_password set_account_password delete_sessions_for_account get_account_by_id
  regenerated o =
      rw
        (
          o,
          g,
          any-first (has_account_id id) (has_account_id id) db.accounts a g
              (first-holds (has_account_id id) db.accounts a g),
        )
        refl

  logged_in :
      (verify_password : Text → Text → Option Bool) (later : ℕ) (token : Text)
      → verify_password password (hash_password password) ≡ some true
      → trim password ≡ password
      → trim a.username_hex ≡ a.username_hex
      → UniqueAccounts db.accounts
      → get_account_by_username a.username_hex db ≡ some a
      → a.is_disabled ≡ false
      → any (has_token token) db.sessions ≡ false
      → (auth_login verify_password later token a.username_hex password renewed_db).0
        ≡ served (
          http_ok,
          record {
            account_id = id;
            session_token = token;
            set_cookie = session_cookie later token (later + seven_days);
          },
        )
  unfolding auth_login get_account_by_username create_session get_account_by_id
  logged_in vp later token v tp tu u n d t =
      let same_id : a.id ≡ id = ground (arith, first-holds (has_account_id id) db.accounts a g) in
      let found =
        found_after id renewed (λ (x : AccountRecord). text_beq x.username_hex a.username_hex)
          db.accounts a (λ x. refl) (λ x. refl) n same_id u in
      let stored =
        found_after id renewed (has_account_id id) db.accounts a (λ x. refl) (λ x. refl) g same_id
          u in
      rw
        (
          tu,
          tp,
          found,
          d,
          v,
          any-delete_none (has_token token) (λ (s : SessionRow). nat_beq s.account_id id)
              db.sessions t,
          same_id,
          any-first (has_account_id id) (has_account_id id)
              (update (has_account_id id) renewed db.accounts) (renewed a) stored (ground arith),
        )
        refl

-- A login with the credentials that an owner has generated for an enabled account succeeds, if the
-- password that was hashed verifies, the ids and names of the accounts differ, the credentials are
-- free of white space around them and the random token is not that of a session.
pub regenerate_password-auth_login :
    (hash_password : Text → Text) (verify_password : Text → Text → Option Bool)
    (now later auth id : ℕ) (password token : Text) (a : AccountRecord) (db : Db)
    → verify_password password (hash_password password) ≡ some true
    → trim password ≡ password
    → trim a.username_hex ≡ a.username_hex
    → UniqueAccounts db.accounts
    → get_account_by_id id db ≡ some a
    → get_account_by_username a.username_hex db ≡ some a
    → a.is_disabled ≡ false
    → account_is_owner auth db ≡ true
    → any (has_token token) db.sessions ≡ false
    → (regenerate_password hash_password now auth id password db).0
        ≡ served (http_ok, record { username_hex = a.username_hex; password_hex = password })
      × ((auth_login verify_password later token a.username_hex password
            (regenerate_password hash_password now auth id password db).1).0
          ≡ served (
            http_ok,
            record {
              account_id = id;
              session_token = token;
              set_cookie = session_cookie later token (later + seven_days);
            },
          ))
regenerate_password-auth_login hp vp now later auth id pw token a db v tp tu u g n d o t =
    let r = regenerated hp now auth id pw a db g o in
    (
      ap (λ x. x.0) r,
      ap (λ x. (auth_login vp later token a.username_hex pw x.1).0) r
          ∙ logged_in hp now auth id pw a db g vp later token v tp tu u n d t,
    )
