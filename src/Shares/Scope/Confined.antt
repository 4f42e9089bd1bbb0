-- ===== src/Shares/Scope/Confined.antt =====
-- src/db/shares.rs: the confinement of share links.
use my_s.Common.{
  Bool, List, Option, Option-cases, Text, [], any, arith, false, first, first-any, first-holds, inl,
  inr, is_empty, length, nat_beq, none, not, refl, select, some, starts_with, text_beq, true, ℕ,
  ◌&&◌, ◌++◌, ◌∷◌, ◌≡◌,
}
use my_s.Models.{ShareLinkRecord, is_file, is_public}
use my_s.Objects.Rows.Unique.{text_beq_sym}
use my_s.Shares.Scope.{
  covers, key_in_share_scope, prefer_share_for_link, resolve_list_prefix, usable,
}
use my_s.Sql.Like.{compile, like, match_one, match_run, matches, percent}

pub starts_with_trans :
    (p q s : Text) → starts_with p q ≡ true → starts_with q s ≡ true → starts_with p s ≡ true
unfolding starts_with
starts_with_trans [] q s h k = refl
starts_with_trans (c ∷ p) [] s h k = ground arith
starts_with_trans (c ∷ p) (d ∷ q) [] h k = ground arith
starts_with_trans (c ∷ p) (d ∷ q) (e ∷ s) h k = ground (arith, starts_with_trans p q s)

pub starts_with_refl : (s : Text) → starts_with s s ≡ true
unfolding starts_with
starts_with_refl [] = refl
starts_with_refl (c ∷ s) = ground (arith, starts_with_refl s)

-- Every key under a prefix that `resolve_list_prefix` gives is in the scope of the share, whatever
-- the relative path was.
pub resolve_list_prefix-confined :
    (s : ShareLinkRecord) (relative : Option Text) (prefix key : Text)
    → resolve_list_prefix s relative ≡ inr prefix
    → starts_with prefix key ≡ true
    → key_in_share_scope s key ≡ true
unfolding resolve_list_prefix key_in_share_scope
resolve_list_prefix-confined s relative prefix key h k =
    ground (arith, starts_with_refl s.target_key, starts_with_trans s.target_key prefix key)

select-holds :
    {A : Type 0} (p q : A → Bool) (l : List A) (a : A) → first q (select p l) ≡ some a → p a ≡ true
unfolding first select
select-holds p q [] a h = ground arith
select-holds p q (x ∷ l) a h = ground (arith, select-holds p q l a)

abbrev pub public_share : ShareLinkRecord → Bool
public_share t = is_public t.access_mode

abbrev file_share : Text → ShareLinkRecord → Bool
file_share key t = is_file t.target_kind && text_beq t.target_key key

abbrev some_share : ShareLinkRecord → Bool
some_share t = true

absent :
    (p q : ShareLinkRecord → Bool) (l : List ShareLinkRecord) (s : ShareLinkRecord)
    → any p l ≡ false
    → first q l ≡ some s
    → p s ≡ false
unfolding any first
absent p q [] s h k = ground arith
absent p q (x ∷ l) s h k = ground (arith, absent p q l s)

first-some :
    (p : ShareLinkRecord → Bool) (l : List ShareLinkRecord) (s : ShareLinkRecord)
    → first p l ≡ some s
    → any p l ≡ true
unfolding any first
first-some p [] s h = ground arith
first-some p (x ∷ l) s h = ground (arith, first-some p l s)

any-some_share : (l : List ShareLinkRecord) → any some_share l ≡ not (nat_beq (length l) 0)
unfolding any
any-some_share [] = refl
any-some_share (x ∷ l) = ground arith

-- A share that `prefer_share_for_link` picks is usable; and it is public if and only if any of the
-- usable ones is.
pub prefer_share_for_link-usable :
    (now : ℕ) (shares : List ShareLinkRecord) (file_key : Option Text) (s : ShareLinkRecord)
    → prefer_share_for_link now shares file_key ≡ some s
    → (usable now s ≡ true)
      × (is_public s.access_mode ≡ any public_share (select (usable now) shares))
unfolding prefer_share_for_link
prefer_share_for_link-usable now shares none s h =
    elim (Option-cases (first public_share (select (usable now) shares))) [
      | inl e ↦ ground (
        arith,
        first-any public_share (select (usable now) shares),
        select-holds (usable now) some_share shares s,
        absent public_share some_share (select (usable now) shares) s,
      )
      | inr (t, e) ↦ ground (
        arith,
        select-holds (usable now) public_share shares t,
        first-some public_share (select (usable now) shares) t,
        first-holds public_share (select (usable now) shares) t,
      )
    ]
prefer_share_for_link-usable now shares (some key) s h =
    elim (Option-cases (first public_share (select (usable now) shares))) [
      | inl e ↦ ground (
        arith,
        first-any public_share (select (usable now) shares),
        select-holds (usable now) some_share shares s,
        select-holds (usable now) (file_share key) shares s,
        absent public_share some_share (select (usable now) shares) s,
        absent public_share (file_share key) (select (usable now) shares) s,
      )
      | inr (t, e) ↦ ground (
        arith,
        select-holds (usable now) public_share shares t,
        first-some public_share (select (usable now) shares) t,
        first-holds public_share (select (usable now) shares) t,
      )
    ]

match_run-empty : (s : Text) → match_run (λ t. is_empty t) s ≡ true
unfolding match_run
match_run-empty [] = refl
match_run-empty (c ∷ s) = ground (arith, match_run-empty s)

match_run-now : (k : Text → Bool) (s : Text) → k s ≡ true → match_run k s ≡ true
unfolding match_run
match_run-now k [] h = h
match_run-now k (c ∷ s) h = ground (arith, h)

match_run-later :
    (k : Text → Bool) (c : ℕ) (s : Text) → match_run k s ≡ true → match_run k (c ∷ s) ≡ true
unfolding match_run
match_run-later k c s h = ground (arith, h)

literal-starts :
    (p s : Text)
    → starts_with p s ≡ true
    → matches (compile none false (p ++ percent ∷ [])) s ≡ true
unfolding compile matches match_one starts_with
literal-starts [] s h = match_run-empty s
literal-starts (c ∷ p) [] h = ground arith
literal-starts (c ∷ p) (d ∷ s) h = ground (
  arith,
  literal-starts p s,
  match_run-later (matches (compile none false (p ++ percent ∷ []))) d s,
  match_run-now (matches (compile none false (p ++ percent ∷ []))) s,
)

-- A key that is in the scope of a share is covered by it in the query of `list_shares_covering_key`,
-- wildcards in the folder's name or not.
pub covers-key_in_share_scope :
    (s : ShareLinkRecord) (key : Text) → key_in_share_scope s key ≡ true → covers key s ≡ true
unfolding key_in_share_scope like
covers-key_in_share_scope s key h =
    ground (arith, text_beq_sym key s.target_key, literal-starts s.target_key key)
