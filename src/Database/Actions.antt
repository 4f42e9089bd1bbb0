-- ===== src/Database/Actions.antt =====
-- Statements and transactions on a state. The result comes with the state, since a statement that
-- fails after others have succeeded leaves their effect; only a transaction takes it back.
use my_s.Common.{Bool, Option, arith, false, inl, inr, none, refl, some, true, ◌≡◌, ◌⊎◌}

-- The messages of `bail!` and `context`, and the constraint errors of SQLite.
pub data Error : Type 0 where
  unique_violation foreign_key_violation check_violation : Error
  object_not_found bucket_not_found account_not_found role_not_found peer_not_found : Error
  assignment_not_found share_not_found folder_not_found : Error
  not_in_recycle_bin key_already_exists target_key_exists folder_empty : Error
  owner_role_undeletable storage_undeletable storage_unrenamable storage_reserved : Error
  bucket_not_empty owner_disabled retention_negative : Error
  bytes_not_positive no_fields local_node_unremovable last_node_unremovable quota_exceeded : Error
  recipients_required no_unique_token revoke_not_allowed : Error
  etag_mismatch open_failed stream_failed archive_empty : Error
  key_empty key_invalid_segment prefix_empty prefix_invalid_segment : Error

pub data Result {ℓ} (A : Type ℓ) : Type ℓ where
  ok : A → Result A
  err : Error → Result A

pub Result-cases {ℓ} :
    {A : Type ℓ} (r : Result A) → ((a : A) × (r ≡ ok a)) ⊎ ((e : Error) × (r ≡ err e))
Result-cases (ok a) = inl (a, refl)
Result-cases (err e) = inr (e, refl)

abbrev pub Exec : Type 0 → Type 0 → Type 0
Exec S A = S → Result A × S

module _ {S A : Type 0} where
  abbrev pub pure : A → Exec S A
  pure a s = (ok a, s)

  abbrev pub bail : Error → Exec S A
  bail e s = (err e, s)

  abbrev pub gets : (S → A) → Exec S A
  gets f s = (ok (f s), s)

  -- `.context(e)?` on an optional row
  abbrev pub context : Option A → Error → Exec S A
  context none e = bail e
  context (some a) e = pure a

  abbrev on_commit : Result A → S → S → Result A × S
  on_commit (ok a) before after = (ok a, after)
  on_commit (err e) before after = (err e, before)

  -- `begin` … `commit`; an error drops the transaction, which rolls it back
  unfoldable pub transaction : Exec S A → Exec S A
  transaction m s = let (r, s') = m s in on_commit r s s'

module _ {S : Type 0} where
  abbrev pub modify : (S → S) → Exec S (Unit {0})
  modify f s = (ok tt, f s)

  abbrev pub guard : Bool → Error → Exec S (Unit {0})
  guard true e s = (ok tt, s)
  guard false e s = (err e, s)

module _ {S A B : Type 0} where
  abbrev continue : Result A → (A → Exec S B) → Exec S B
  continue (ok a) f s = f a s
  continue (err e) f s = (err e, s)

  infixl 10 ◌>>=◌ ◌>>◌
  abbrev pub ◌>>=◌ : Exec S A → (A → Exec S B) → Exec S B
  ◌>>=◌ m f s = let (r, s') = m s in continue r f s'

  abbrev pub ◌>>◌ : Exec S A → Exec S B → Exec S B
  m >> n = m >>= λ _. n

-- A transaction that fails leaves the state as it was.
pub transaction-err :
    {S A : Type 0} (m : Exec S A) (s : S) (e : Error)
    → (transaction m s).0 ≡ err e
    → (transaction m s).1 ≡ s
unfolding transaction
transaction-err m s e h = ground arith
