-- ===== src/Objects/Folders/Prefixes.antt =====
-- src/db/repository.rs: which objects are in a folder.
use my_s.Common.{
  Bool, List, Text, [], any, arith, false, nat_beq, order_by, refl, select, starts_with, sum,
  update, ℕ, ◌&&◌, ◌∷◌, ◌≡◌,
}
use my_s.Database.{Db}
use my_s.Models.{ObjectRecord}
use my_s.Objects.Bin.{to_bin}
use my_s.Objects.Folders.{folder_stats, list_keys_under_prefix, soft_delete_prefix, under_prefix}
use my_s.Objects.Rows.{is_active}
use my_s.Sql.Like.Escape.{like-like_escape, lower}

update-cong :
    (p q : ObjectRecord → Bool) (f : ObjectRecord → ObjectRecord) (l : List ObjectRecord)
    → ((o : ObjectRecord) → p o ≡ q o)
    → update p f l ≡ update q f l
unfolding update
update-cong p q f [] h = refl
update-cong p q f (x ∷ l) h = ground (arith, h x, update-cong p q f l h)

-- The active objects of a bucket whose key begins with a prefix, up to ASCII case.
abbrev pub in_folder : ℕ → Text → ObjectRecord → Bool
in_folder b prefix o =
    is_active o && (nat_beq o.bucket_id b && starts_with (lower prefix) (lower o.original_filename))

under_prefix-in_folder :
    (b : ℕ) (prefix : Text) (o : ObjectRecord) → under_prefix b prefix o ≡ in_folder b prefix o
under_prefix-in_folder b prefix o = ground (arith, like-like_escape prefix o.original_filename)

-- `soft_delete_prefix` moves to the recycle bin the active objects of the bucket whose key begins
-- with the prefix up to ASCII case, `%`, `_` and `\\` in the prefix standing for themselves, and
-- leaves every other row as it was.
pub soft_delete_prefix-objects :
    (now b : ℕ) (prefix : Text) (db : Db)
    → (soft_delete_prefix now b prefix db).1.objects
      ≡ update (in_folder b prefix) (to_bin now) db.objects
unfolding soft_delete_prefix
soft_delete_prefix-objects now b prefix db =
    update-cong (under_prefix b prefix) (in_folder b prefix) (to_bin now) db.objects
      (under_prefix-in_folder b prefix)

any-emptied :
    (now b : ℕ) (prefix : Text) (l : List ObjectRecord)
    → any (under_prefix b prefix) (update (under_prefix b prefix) (to_bin now) l) ≡ false
unfolding any update
any-emptied now b prefix [] = refl
any-emptied now b prefix (x ∷ l) = ground (arith, any-emptied now b prefix l)

select-any-false :
    (p : ObjectRecord → Bool) (l : List ObjectRecord) → any p l ≡ false → select p l ≡ []
unfolding any select
select-any-false p [] h = refl
select-any-false p (x ∷ l) h = ground (arith, select-any-false p l)

-- After `soft_delete_prefix` no key is listed under the prefix, and its statistics count nothing.
soft_delete_prefix-emptied :
    (now b : ℕ) (prefix : Text) (db : Db)
    → (let db' = (soft_delete_prefix now b prefix db).1 in
        (list_keys_under_prefix b prefix db' ≡ [])
        × ((folder_stats b prefix db').object_count ≡ 0)
        × ((folder_stats b prefix db').total_bytes ≡ 0))
unfolding soft_delete_prefix list_keys_under_prefix folder_stats order_by sum
soft_delete_prefix-emptied now b prefix db = ground (
  arith,
  any-emptied now b prefix db.objects,
  select-any-false (under_prefix b prefix) (update (under_prefix b prefix) (to_bin now) db.objects),
)
