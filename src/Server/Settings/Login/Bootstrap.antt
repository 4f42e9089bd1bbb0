-- ===== src/Server/Settings/Login/Bootstrap.antt =====
-- src/server/settings_routes.rs: the first account.
use my_s.Common.{
  List, Option, Option-cases, Text, [], any, any-append, any-first, any_implied, ap, arith, codes,
  first-holds, inl, inr, length, length-append, nat_beq, none, refl, some, true, ℕ, ◌&&◌, ◌+◌, ◌∙◌,
  ◌∷◌, ◌≡◌,
}
use my_s.Database.{Db, Result-cases, ok}
use my_s.Models.{AccountRecord, AccountRole, RoleRecord}
use my_s.Rbac.Accounts.{account_count, create_account, new_account}
use my_s.Rbac.Buckets.{claim_unowned_buckets}
use my_s.Rbac.Permissions.{account_is_owner}
use my_s.Rbac.Roles.{assign_role, get_owner_role, insert_account_role, is_assignment}
use my_s.Rbac.Sessions.{create_session}
use my_s.Rbac.Sessions.Created.{create_session-ok}
use my_s.Replication.Nodes.{assigned}
use my_s.Server.Http.{StatusCode, conflict, refused, served}
use my_s.Server.Settings.Login.{
  BootstrapReply, CredentialsOnce, auth_bootstrap, display_or, seven_days,
}

assign_role-ok :
    (account_id role_id : ℕ) (db db' : Db)
    → assign_role account_id role_id db ≡ (ok tt, db')
    → (any (is_assignment account_id role_id) db'.account_roles ≡ true)
      × (db'.roles ≡ db.roles)
      × (db'.accounts ≡ db.accounts)
unfolding assign_role insert_account_role any
assign_role-ok a r db db' h = ground (
  arith,
  any-append (is_assignment a r) db.account_roles (record { account_id = a; role_id = r } ∷ []),
)

-- An account with a role that is an owner role.
account_is_owner-assigned :
    (account_id : ℕ) (o : RoleRecord) (db : Db)
    → get_owner_role db ≡ some o
    → any (is_assignment account_id o.id) db.account_roles ≡ true
    → account_is_owner account_id db ≡ true
unfolding account_is_owner get_owner_role
account_is_owner-assigned account_id o db h k =
    let is_the_owner : any (λ (r : RoleRecord). nat_beq r.id o.id && r.is_owner) db.roles ≡ true =
      any-first (λ (r : RoleRecord). r.is_owner) (λ r. nat_beq r.id o.id && r.is_owner) db.roles o h
        (ground (arith, first-holds (λ (r : RoleRecord). r.is_owner) db.roles o h)) in
    any_implied (is_assignment account_id o.id)
      (λ (ar : AccountRole).
        nat_beq ar.account_id account_id
        && any (λ (r : RoleRecord). nat_beq r.id ar.role_id && r.is_owner) db.roles)
      db.account_roles
      (λ x e.
        let same : x.role_id ≡ o.id = ground arith in
        let its_owner : any (λ (r : RoleRecord). nat_beq r.id x.role_id && r.is_owner) db.roles
            ≡ true =
          rw same is_the_owner in
        ground arith)
      k

-- What a bootstrap is made of.
bootstrap_parts :
    (hash_password : Text → Text) (now : ℕ) (credentials : CredentialsOnce) (token : Text)
    (display_name : Option Text) (status : StatusCode) (body : BootstrapReply) (db db' : Db)
    → auth_bootstrap hash_password now credentials token display_name db
      ≡ (served (status, body), db')
    → (a : AccountRecord) × (o : RoleRecord) × (r : Text × ℕ) × (db1 : Db) × (db2 : Db)
      × (account_count db ≡ 0)
      × ((name : Text) × (create_account now credentials.username_hex
              (hash_password credentials.password_hex)
              name
              none
              db
            ≡ (ok a, db1)))
      × (get_owner_role db1 ≡ some o)
      × (assign_role a.id o.id db1 ≡ (ok tt, db2))
      × (create_session now token a.id seven_days (claim_unowned_buckets a.id db2) ≡ (ok r, db'))
      × (body.account_id ≡ a.id)
unfolding auth_bootstrap
bootstrap_parts hp now c token name status body db db' h =
    elim (Result-cases
      (create_account now c.username_hex (hp c.password_hex) (display_or (codes "Owner") name) none
        db).0) [
          | inr (x, e) ↦ absurd (ground arith)
          | inl (a, e) ↦
              let db1 =
                (create_account now c.username_hex (hp c.password_hex)
                  (display_or (codes "Owner") name) none db).1 in
              elim (Option-cases (get_owner_role db1)) [
                | inl k ↦ absurd (ground arith)
                | inr (o, k) ↦ elim (Result-cases (assign_role a.id o.id db1).0) [
                  | inr (x, i) ↦ absurd (ground arith)
                  | inl (u, i) ↦
                      let db2 = (assign_role a.id o.id db1).1 in
                      elim (Result-cases
                        (create_session now token a.id seven_days
                          (claim_unowned_buckets a.id db2)).0) [
                            | inr (x, j) ↦ absurd (ground arith)
                            | inl (r, j) ↦ (
                              a,
                              o,
                              r,
                              db1,
                              db2,
                              ground arith,
                              (display_or (codes "Owner") name, ground arith),
                              k,
                              ground arith,
                              ground arith,
                              ground arith,
                            )
                          ]
                ]
              ]
        ]

create_account-count :
    (now : ℕ) (username_hex password_hash display_name : Text) (created_by : Option ℕ)
    (a : AccountRecord) (db db' : Db)
    → create_account now username_hex password_hash display_name created_by db ≡ (ok a, db')
    → length db'.accounts ≡ length db.accounts + 1
unfolding create_account
create_account-count now u p d c a db db' h =
    ground (arith, length-append db.accounts (new_account db.next_account now u p d c ∷ []))

second_bootstrap :
    (hash_password : Text → Text) (now : ℕ) (credentials : CredentialsOnce) (token : Text)
    (name : Option Text) (db : Db)
    → account_count db ≡ 1
    → auth_bootstrap hash_password now credentials token name db ≡ (refused conflict, db)
unfolding auth_bootstrap
second_bootstrap hp now c token name db h = rw h refl

-- A bootstrap that succeeds does so on a database without accounts and leaves one account, which has
-- an owner role; any bootstrap after it is answered 409 and changes nothing.
pub auth_bootstrap-once :
    (hash_password : Text → Text) (now later : ℕ) (credentials others : CredentialsOnce)
    (token token' : Text) (name name' : Option Text) (status : StatusCode) (body : BootstrapReply)
    (db db' : Db)
    → auth_bootstrap hash_password now credentials token name db ≡ (served (status, body), db')
    → (account_count db ≡ 0)
      × (account_count db' ≡ 1)
      × (account_is_owner body.account_id db' ≡ true)
      × (auth_bootstrap hash_password later others token' name' db' ≡ (refused conflict, db'))
unfolding account_count get_owner_role claim_unowned_buckets
auth_bootstrap-once hp now later c c' token token' name name' status body db db' h =
    let (a, o, r, db1, db2, z, (n, k), w, i, s, b) =
      bootstrap_parts hp now c token name status body db db' h in
    let (assigned, roles, accounts) = assign_role-ok a.id o.id db1 db2 i in
    let (_, _, kept, kept_roles, same_roles) =
      create_session-ok now a.id seven_days token r (claim_unowned_buckets a.id db2) db' s in
    let one : length db'.accounts ≡ 1 =
      ap (λ (l : List AccountRecord). length l) (kept ∙ accounts)
      ∙ create_account-count now c.username_hex (hp c.password_hex) n none a db db1 k
      ∙ ap (λ m. m + 1) z in
    (
      z,
      one,
      rw b (
          account_is_owner-assigned a.id o db' (rw (same_roles ∙ roles) w)
            (rw kept_roles assigned)),
      second_bootstrap hp later c' token' name' db' one,
    )
