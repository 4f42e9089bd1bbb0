-- ===== src/Server/Blobs/Purged.antt =====
-- src/server/purge.rs: what the purge removes.
use my_s.Common.{
  Bool, Bool-cases, List, Text, [], any, any-order_by, ap, arith, delete, delete-delete,
  delete-never, false, inl, inr, nat_beq, nat_beq_refl, refl, select, sym, ℕ, ◌-◌, ◌||◌, ◌∙◌, ◌∷◌,
  ◌≡◌,
}
use my_s.Database.{Db}
use my_s.Models.{ObjectRecord, to_seconds}
use my_s.Objects.Bin.{deleted_leb, list_expired_deleted_objects, past_retention}
use my_s.Objects.Rows.{delete_rows, has_object_id}
use my_s.Objects.Rows.Unique.{IsValid, UniqueRows, clashes}
use my_s.Replication.Outbox.{enqueue_for_active_peers}
use my_s.Server.Blobs.{Store, purge_all, purge_object, purge_once}

abbrev pub same_id : ObjectRecord → ObjectRecord → Bool
same_id x o = nat_beq o.id x.id

pub delete-cong :
    (p q : ObjectRecord → Bool) (l : List ObjectRecord)
    → ((x : ObjectRecord) → p x ≡ q x)
    → delete p l ≡ delete q l
unfolding delete
delete-cong p q [] h = refl
delete-cong p q (x ∷ l) h = ground (arith, h x, delete-cong p q l h)

purge_object-objects :
    (now : ℕ) (node_id : Text) (o : ObjectRecord) (s : Store)
    → (purge_object now node_id o s).db.objects ≡ delete (has_object_id o.id) s.db.objects
unfolding purge_object enqueue_for_active_peers delete_rows
purge_object-objects now node_id o s = refl

purge_all-objects :
    (now : ℕ) (node_id : Text) (os : List ObjectRecord) (s : Store)
    → (purge_all now node_id os s).db.objects ≡ delete (λ x. any (same_id x) os) s.db.objects
unfolding purge_all any
purge_all-objects now node_id [] s = sym (delete-never s.db.objects)
purge_all-objects now node_id (o ∷ os) s =
    purge_all-objects now node_id os (purge_object now node_id o s)
    ∙ ap (λ l. delete (λ x. any (same_id x) os) l) (purge_object-objects now node_id o s)
    ∙ delete-delete (has_object_id o.id) (λ x. any (same_id x) os) s.db.objects
    ∙ delete-cong (λ x. has_object_id o.id x || any (same_id x) os)
        (λ x. same_id x o || any (same_id x) os) s.db.objects (λ x. ground arith)

unselected :
    (p : ObjectRecord → Bool) (x : ObjectRecord) (l : List ObjectRecord)
    → any (clashes x) l ≡ false
    → any (same_id x) (select p l) ≡ false
unfolding any select
unselected p x [] h = refl
unselected p x (y ∷ l) h = ground (arith, unselected p x l)

seen_later :
    (f : ℕ → Bool) (x : ObjectRecord) (l : List ObjectRecord)
    → any (λ (y : ObjectRecord). f y.id) l ≡ false
    → any (clashes x) l ≡ false
    → any (λ (y : ObjectRecord). f y.id || nat_beq x.id y.id) l ≡ false
unfolding any
seen_later f x [] h k = refl
seen_later f x (y ∷ l) h k = ground (arith, seen_later f x l)

-- Among rows with different ids, to delete the ids of the selected rows is to delete these rows.
pub delete-selected :
    (f : ℕ → Bool) (p : ObjectRecord → Bool) (l : List ObjectRecord)
    → UniqueRows l
    → any (λ (x : ObjectRecord). f x.id) l ≡ false
    → delete (λ x. f x.id || any (same_id x) (select p l)) l ≡ delete p l
unfolding UniqueRows any delete select
delete-selected f p [] u h = refl
delete-selected f p (x ∷ l) u h = elim (Bool-cases (p x)) [
  | inl e ↦ ground (
    arith,
    nat_beq_refl x.id,
    seen_later f x l,
    delete-selected (λ i. f i || nat_beq x.id i) p l u.1,
    delete-cong (λ y. f y.id || (nat_beq x.id y.id || any (same_id y) (select p l)))
        (λ y. (f y.id || nat_beq x.id y.id) || any (same_id y) (select p l)) l (λ y. ground arith),
  )
  | inr e ↦ ground (arith, unselected p x l, delete-selected f p l u.1)
]

pub any-never : (l : List ObjectRecord) → any (λ x. false) l ≡ false
unfolding any
any-never [] = refl
any-never (x ∷ l) = any-never l

-- The time before which deleted objects are purged.
abbrev pub cutoff : ℕ → Db → ℕ
cutoff now db =
    now - to_seconds db.settings.recycle_retention_unit db.settings.recycle_retention_value

-- If the constraints hold, `purge_once` removes exactly the rows of the objects that were moved to
-- the recycle bin on the UTC day of the cutoff time, be it after that time, or on a day before, and
-- keeps all others as they are and in order.
pub purge_once-objects :
    (now : ℕ) (node_id : Text) (s : Store)
    → IsValid s.db
    → (purge_once now node_id s).db.objects ≡ delete (past_retention (cutoff now s.db)) s.db.objects
unfolding purge_once list_expired_deleted_objects IsValid
purge_once-objects now node_id s v =
    purge_all-objects now node_id (list_expired_deleted_objects (cutoff now s.db) s.db) s
    ∙ delete-cong (λ x. any (same_id x) (list_expired_deleted_objects (cutoff now s.db) s.db))
        (λ x. false || any (same_id x) (select (past_retention (cutoff now s.db)) s.db.objects))
        s.db.objects
        (λ x.
          any-order_by (same_id x) deleted_leb
            (select (past_retention (cutoff now s.db)) s.db.objects))
    ∙ delete-selected (λ _. false) (past_retention (cutoff now s.db)) s.db.objects v.0
        (any-never s.db.objects)
