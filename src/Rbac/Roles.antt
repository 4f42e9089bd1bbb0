-- ===== src/Rbac/Roles.antt =====
-- src/db/rbac.rs: roles and their assignment to accounts.
use my_s.Common.{
  Bool, List, Option, Text, [], any, delete, false, first, if◌then◌else◌, leb, map, nat_beq, none,
  not, order_by, select, some, text_beq, update, beq_ℤ, leb_ℤ, ℕ, ℤ, ◌&&◌, ◌++◌, ◌+◌, ◌∷◌,
}
use my_s.Database.{
  Db, Exec, context, err, foreign_key_violation, guard, modify, ok, owner_role_undeletable, pure,
  role_not_found, transaction, unique_violation, ◌>>=◌, ◌>>◌,
}
use my_s.Models.{AccountRole, RoleBucketPermission, RoleRecord}
use my_s.Rbac.Accounts.{has_account_id}

abbrev pub has_role_id : ℕ → RoleRecord → Bool
has_role_id id r = nat_beq r.id id

unfoldable pub get_role : ℕ → Db → Option RoleRecord
get_role id db = first (has_role_id id) db.roles

-- Roles are numbered in rowid order, so the first is the one with the least id.
unfoldable pub get_owner_role : Db → Option RoleRecord
get_owner_role db = first (λ (r : RoleRecord). r.is_owner) db.roles

unfoldable pub create_role : Text → ℤ → Exec Db RoleRecord
create_role name position db =
    if any (λ (r : RoleRecord). text_beq r.name name) db.roles
    then (err unique_violation, db)
    else let role : RoleRecord = record {
      id = db.next_role;
      name = name;
      position = position;
      is_owner = false;
    } in
      let db' : Db = record db { roles = db.roles ++ role ∷ []; next_role = db.next_role + 1 } in
      context (get_role db.next_role db') role_not_found db'

abbrev or_default {ℓ} : {A : Type ℓ} → Option A → A → A
or_default none d = d
or_default (some a) d = a

-- The unique name may be that of the row itself.
abbrev set_role : ℕ → Option Text → Option ℤ → RoleRecord → Exec Db (Unit {0})
set_role id name position role db =
    let name' = or_default name role.name in
    let position' = or_default position role.position in
    if any (λ (r : RoleRecord). text_beq r.name name' && not (nat_beq r.id id)) db.roles
    then (err unique_violation, db)
    else (
      ok tt,
      record db {
        roles =
            update (has_role_id id) (λ r. record r { name = name'; position = position' }) db.roles;
      },
    )

unfoldable pub update_role : ℕ → Option Text → Option ℤ → Exec Db (Unit {0})
update_role id name position = do
  role ← λ db. context (get_role id db) role_not_found db
  set_role id name position role

-- Assignments and permissions of the role go with it.
abbrev drop_role : ℕ → Db → Db
drop_role id db = record db {
  roles = delete (has_role_id id) db.roles;
  account_roles = delete (λ (r : AccountRole). nat_beq r.role_id id) db.account_roles;
  permissions = delete (λ (p : RoleBucketPermission). nat_beq p.role_id id) db.permissions;
}

unfoldable pub delete_role : ℕ → Exec Db (Unit {0})
delete_role id = do
  role ← λ db. context (get_role id db) role_not_found db
  guard (not role.is_owner) owner_role_undeletable
  modify (drop_role id)

abbrev pub is_assignment : ℕ → ℕ → AccountRole → Bool
is_assignment account_id role_id r = nat_beq r.account_id account_id && nat_beq r.role_id role_id

unfoldable pub list_account_role_ids : ℕ → Db → List ℕ
list_account_role_ids account_id db =
    map (λ (r : AccountRole). r.role_id)
      (select (λ (r : AccountRole). nat_beq r.account_id account_id) db.account_roles)

-- INSERT INTO account_role: the pair is the primary key, both parts refer to rows.
unfoldable pub insert_account_role : ℕ → ℕ → Exec Db (Unit {0})
insert_account_role account_id role_id db =
    if any (is_assignment account_id role_id) db.account_roles
    then (err unique_violation, db)
    else if any (has_account_id account_id) db.accounts && any (has_role_id role_id) db.roles
    then (
      ok tt,
      record db {
        account_roles =
            db.account_roles ++ record { account_id = account_id; role_id = role_id } ∷ [];
      },
    )
    else (err foreign_key_violation, db)

unfoldable pub insert_account_roles : ℕ → List ℕ → Exec Db (Unit {0})
unfolding insert_account_role
insert_account_roles account_id [] = pure tt
insert_account_roles account_id (rid ∷ role_ids) = do
  insert_account_role account_id rid
  insert_account_roles account_id role_ids

unfoldable pub set_account_roles : ℕ → List ℕ → Exec Db (Unit {0})
unfolding transaction
set_account_roles account_id role_ids = transaction (do
  modify (λ db. record db {
    account_roles = delete (λ (r : AccountRole). nat_beq r.account_id account_id) db.account_roles;
  })
  insert_account_roles account_id role_ids)

-- INSERT OR IGNORE: a pair that is there stays.
unfoldable pub assign_role : ℕ → ℕ → Exec Db (Unit {0})
unfolding insert_account_role
assign_role account_id role_id db =
    if any (is_assignment account_id role_id) db.account_roles
    then (ok tt, db)
    else insert_account_role account_id role_id db

-- ORDER BY position DESC, id ASC
unfoldable pub list_roles : Db → List RoleRecord
list_roles db =
    order_by
      (λ (a b : RoleRecord).
        if beq_ℤ a.position b.position then leb a.id b.id else leb_ℤ b.position a.position)
      db.roles
