-- ===== src/Shares/Scope.antt =====
-- src/db/shares.rs: which keys a share covers.
pub mod Confined
use my_s.Common.{
  Bool, List, Option, Text, [], all, codes, ends_with, false, first, if◌then◌else◌, inl, inr,
  is_empty, leb, nat_beq, none, not, or_else, order_by, select, slash, some, split, starts_with,
  text_beq, trim, trim_end_matches, trim_start_matches, true, ℕ, ◌&&◌, ◌++◌, ◌∷◌, ◌⊎◌,
}
use my_s.Database.{Db}
use my_s.Keys.{is_slash, valid_segment}
use my_s.Models.{ShareLinkRecord, is_file, is_public}
use my_s.Shares.Links.{is_revoked, share_is_usable}
use my_s.Sql.Like.{like, percent}

abbrev pub is_open : ℕ → ShareLinkRecord → Bool
is_open bucket_id s = nat_beq s.bucket_id bucket_id && not (is_revoked s)

-- ORDER BY created_at DESC
abbrev pub newest : ShareLinkRecord → ShareLinkRecord → Bool
newest a b = leb b.created_at a.created_at

unfoldable pub list_shares_for_target : ℕ → Text → ℕ → Db → List ShareLinkRecord
list_shares_for_target bucket_id target_key created_by_account_id db = order_by newest (
    select
      (λ s.
        is_open bucket_id s
        && (text_beq s.target_key target_key
            && nat_beq s.created_by_account_id created_by_account_id))
      db.shares)

-- target_key = key for a file, key LIKE (target_key || '%') for a folder, without an ESCAPE.
abbrev pub covers : Text → ShareLinkRecord → Bool
covers key s =
    if is_file s.target_kind
    then text_beq s.target_key key
    else like none (s.target_key ++ percent ∷ []) key

unfoldable pub list_shares_covering_key : ℕ → Text → Db → List ShareLinkRecord
list_shares_covering_key bucket_id key db =
    order_by newest (select (λ s. is_open bucket_id s && covers key s) db.shares)

unfoldable pub list_folder_shares_for_prefix : ℕ → Text → Db → List ShareLinkRecord
list_folder_shares_for_prefix bucket_id prefix db = order_by newest (
    select
      (λ s. is_open bucket_id s && (not (is_file s.target_kind) && text_beq s.target_key prefix))
      db.shares)

abbrev pub usable : ℕ → ShareLinkRecord → Bool
usable now s = elim (share_is_usable s now) [ none ↦ true | some _ ↦ false ]

abbrev find_file : Option Text → List ShareLinkRecord → Option ShareLinkRecord
find_file none shares = none
find_file (some key) shares =
    first (λ (s : ShareLinkRecord). is_file s.target_kind && text_beq s.target_key key) shares

unfoldable pub prefer_share_for_link :
    ℕ → List ShareLinkRecord → Option Text → Option ShareLinkRecord
prefer_share_for_link now shares file_key =
    let open_shares = select (usable now) shares in
    or_else (first (λ (s : ShareLinkRecord). is_public s.access_mode) open_shares)
      (or_else (find_file file_key open_shares) (first (λ _. true) open_shares))

unfoldable pub key_in_share_scope : ShareLinkRecord → Text → Bool
key_in_share_scope s key =
    if is_file s.target_kind then text_beq key s.target_key else starts_with s.target_key key

pub data ListDenied : Type 0 where
  not_a_folder outside_scope invalid_prefix : ListDenied

-- `relative.map(str::trim).filter(|s| !s.is_empty())`: empty for none.
abbrev trimmed : Option Text → Text
trimmed none = []
trimmed (some t) = trim t

abbrev joined_prefix : Text → Text → Text
joined_prefix root rel =
    if ends_with (slash ∷ []) rel then root ++ rel else root ++ rel ++ slash ∷ []

abbrev check_joined : Text → Text → ListDenied ⊎ Text
check_joined root path =
    if not (starts_with root path)
    then inl outside_scope
    else if all valid_segment (split slash (trim_end_matches is_slash path))
    then inr path
    else inl invalid_prefix

unfoldable pub resolve_list_prefix : ShareLinkRecord → Option Text → ListDenied ⊎ Text
resolve_list_prefix s relative =
    let rel = trimmed relative in
    if is_file s.target_kind
    then inl not_a_folder
    else if is_empty rel
    then inr s.target_key
    else check_joined s.target_key (joined_prefix s.target_key (trim_start_matches is_slash rel))

unfoldable pub share_url_path : ShareLinkRecord → Text
share_url_path s = elim s.short_code [
  | none ↦ codes "/share/" ++ s.token
  | some code ↦ codes "/s/" ++ code
]
