-- ===== src/Shares/Links/Created.antt =====
-- src/db/shares.rs: what creating and revoking a share give.
use my_s.Common.{
  Bool, Bool-cases, List, Option, Option-cases, Text, [], any, arith, false, first, inl, inr,
  length, nat_beq, nat_beq_refl, none, not, refl, some, suc, true, update, zero, ℕ, ◌&&◌, ◌++◌, ◌+◌,
  ◌||◌, ◌∷◌, ◌≡◌, ◌⊎◌,
}
use my_s.Database.{Db, Error, err, foreign_key_violation, ok, unique_violation}
use my_s.Models.{ShareLinkRecord, is_specific_users}
use my_s.Rbac.Accounts.{account_exists}
use my_s.Rbac.Permissions.{has_bucket_id}
use my_s.Shares.Links.{
  ShareRequest, attempt_share, code_taken, create_share, drawn_code, finish_share, get_share_by_id,
  has_share_id, has_share_token, insert_recipient, insert_recipients, insert_share, is_revoked,
  revoke_share, revoked, share_is_usable, share_row, target_exists,
}

first-last :
    (p : ShareLinkRecord → Bool) (x : ShareLinkRecord) (l : List ShareLinkRecord)
    → any p l ≡ false
    → p x ≡ true
    → first p (l ++ x ∷ []) ≡ some x
unfolding any first
first-last p x [] h k = ground arith
first-last p x (y ∷ l) h k = ground (arith, first-last p x l)

-- What the share says is what was asked for, and it is not revoked.
unfoldable pub IsAsAsked : ShareRequest → ShareLinkRecord → Type 0
IsAsAsked r s =
    (s.bucket_id ≡ r.bucket_id)
    × (s.target_key ≡ r.target_key)
    × (s.target_kind ≡ r.target_kind)
    × (s.access_mode ≡ r.access_mode)
    × (s.expires_at ≡ r.expires_at)
    × (s.created_by_account_id ≡ r.created_by_account_id)
    × (s.revoked_at ≡ none)

insert_recipients-shares :
    (id : ℕ) (as' : List ℕ) (db : Db) → (insert_recipients id as' db).1.shares ≡ db.shares
unfolding insert_recipients insert_recipient
insert_recipients-shares id [] db = refl
insert_recipients-shares id (a ∷ as') db =
    ground (arith, insert_recipients-shares id as' (insert_recipient id a db).1)

finish_share-ok :
    (r : ShareRequest) (as' : List ℕ) (id : ℕ) (db : Db) (s x : ShareLinkRecord)
    → (finish_share r as' id db).0 ≡ ok s
    → first (has_share_id id) db.shares ≡ some x
    → s ≡ x
unfolding finish_share get_share_by_id
finish_share-ok r as' id db s x h k = ground (arith, insert_recipients-shares id as' db)

insert_share-cases :
    (now : ℕ) (token : Text) (code : Option Text) (r : ShareRequest) (db : Db)
    → (insert_share now token code r db ≡ (
      ok db.next_share,
      record db {
        shares = db.shares ++ share_row now db.next_share token code r ∷ [];
        next_share = db.next_share + 1;
      },
    ))
      ⊎ ((e : Error) × (insert_share now token code r db ≡ (err e, db)))
unfolding insert_share
insert_share-cases now token code r db =
    elim (Bool-cases (any (has_share_token token) db.shares || code_taken code db.shares)) [
      | inl e ↦ inr (unique_violation, rw e refl)
      | inr e ↦
          elim (Bool-cases (
            not (
              any (has_bucket_id r.bucket_id) db.buckets
              && account_exists db (some r.created_by_account_id)))) [
                | inl k ↦ inr (foreign_key_violation, rw (e, k) refl)
                | inr k ↦ inl (rw (e, k) refl)
              ]
    ]

share_row-IsAsAsked :
    (now id : ℕ) (token : Text) (code : Option Text) (r : ShareRequest)
    → IsAsAsked r (share_row now id token code r)
unfolding IsAsAsked
share_row-IsAsAsked now id token code r = (refl, refl, refl, refl, refl, refl, refl)

module _ (draw : ℕ → Text × Text) where
  attempt_share-IsAsAsked :
      (left n now : ℕ) (r : ShareRequest) (as' : List ℕ) (shorten : Bool) (db : Db)
      (s : ShareLinkRecord)
      → any (has_share_id db.next_share) db.shares ≡ false
      → (attempt_share draw left n now r as' shorten db).0 ≡ ok s
      → IsAsAsked r s
  unfolding attempt_share
  attempt_share-IsAsAsked zero n now r as' shorten db s f h = ground arith
  attempt_share-IsAsAsked (suc left) n now r as' shorten db s f h =
      elim (insert_share-cases now (draw n).0 (drawn_code draw shorten n) r db) [
        | inl e ↦ ground (
          arith,
          nat_beq_refl db.next_share,
          first-last (has_share_id db.next_share)
              (share_row now db.next_share (draw n).0 (drawn_code draw shorten n) r) db.shares,
          finish_share-ok r as' db.next_share
              (record db {
                shares =
                    db.shares
                    ++ share_row now db.next_share (draw n).0 (drawn_code draw shorten n) r ∷ [];
                next_share = db.next_share + 1;
              })
              s (share_row now db.next_share (draw n).0 (drawn_code draw shorten n) r),
          share_row-IsAsAsked now db.next_share (draw n).0 (drawn_code draw shorten n) r,
        )
        | inr (e', e) ↦
            ground (arith, e, attempt_share-IsAsAsked left (n + 1) now r as' shorten db s)
      ]

-- If no share has the next id yet, a share that `create_share` gives is as asked for and not revoked,
-- its target was there, and with `specific_users` there was an account to share with; whatever the
-- random source draws.
create_share-IsAsAsked :
    (draw : ℕ → Text × Text) (now : ℕ) (r : ShareRequest) (as' : List ℕ) (shorten : Bool) (db : Db)
    (s : ShareLinkRecord)
    → any (has_share_id db.next_share) db.shares ≡ false
    → (create_share draw now r as' shorten db).0 ≡ ok s
    → IsAsAsked r s
      × (target_exists r db ≡ true)
      × ((is_specific_users r.access_mode && nat_beq (length as') 0) ≡ false)
unfolding create_share
create_share-IsAsAsked draw now r as' shorten db s f h =
    ground (arith, attempt_share-IsAsAsked draw 8 0 now r as' shorten db s)

first-revoked :
    (now id : ℕ) (l : List ShareLinkRecord) (s : ShareLinkRecord)
    → first (has_share_id id) (
        update
          (λ c. has_share_id id c && not (is_revoked c))
          (λ c. record c { revoked_at = some now })
          l)
      ≡ some s
    → is_revoked s ≡ true
unfolding first update
first-revoked now id [] s h = ground arith
first-revoked now id (x ∷ l) s h = ground (arith, first-revoked now id l s)

-- After a `revoke_share` that answers true, the share of that id is not usable at any time.
pub revoke_share-usable :
    (now id actor : ℕ) (is_owner : Bool) (db : Db) (s : ShareLinkRecord) (later : ℕ)
    → (revoke_share now id actor is_owner db).0 ≡ ok true
    → get_share_by_id id (revoke_share now id actor is_owner db).1 ≡ some s
    → share_is_usable s later ≡ some revoked
unfolding revoke_share get_share_by_id share_is_usable
revoke_share-usable now id actor is_owner db s later h k =
    elim (Option-cases (first (has_share_id id) db.shares)) [
      | inl e ↦ ground arith
      | inr (t, e) ↦ ground (arith, first-revoked now id db.shares s)
    ]
