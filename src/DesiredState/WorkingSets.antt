-- ===== src/DesiredState/WorkingSets.antt =====
-- domain/desired_state.py: the working sets that the actions change, and the checks that every
-- edit of an existing resource passes first.
use google_workspace_gmail_a.Common.{
  ℕ, String, Bool, true, false, not, Option, none, some, List, [], ◌∷◌, ◌++◌, map, ◌==◌,
  if◌then◌else◌, Result, ok, err, ambiguous_target, key_error, raise_if, or_raise, ◌>>=◌, ◌>>◌,
  select, ◌=s=◌, leb_text, sort_by, Dict, lookup, contains, erase, values, has_duplicates,
}
use google_workspace_gmail_a.Schemas.Resources.{
  AddressKind, email, domain, AddressEntry, ManagedAddressList, ManagedBlockedSenderRule,
}
use google_workspace_gmail_a.Ownership.{OwnershipRegistry, require_owned_address_list}

-- `rules`, `address_lists` and the iterator `identifiers` of `calculate_desired_state`.
pub record Working : Type 0 where
  pub rules : Dict ManagedBlockedSenderRule
  pub address_lists : Dict ManagedAddressList
  pub identifiers : List ℕ

-- `del d[k]`
unfoldable pub delete : {V : Type 0} → ℕ → Dict V → Result (Dict V)
delete k d = if contains k d then ok (erase k d) else err key_error

-- `_require_rule`
unfoldable pub require_rule : ℕ → Dict ManagedBlockedSenderRule → Result ManagedBlockedSenderRule
require_rule id rules = or_raise (lookup id rules) ambiguous_target

-- `[item for item in address_lists.values() if item.display_name == name]`
abbrev pub lists_named : String → Dict ManagedAddressList → List ManagedAddressList
lists_named name lists = select (λ l. l.display_name =s= name) (values lists)

-- the only item of a list of length one
abbrev pub only {ℓ} : {A : Type ℓ} → List A → Option A
only [] = none
only (x ∷ []) = some x
only (x ∷ y ∷ ys) = none

abbrev kind_leb : AddressKind → AddressKind → Bool
kind_leb email domain = false
kind_leb _ _ = true

-- `(entry.normalized_value, entry.kind)` in order; "domain" comes before "email"
abbrev pub entry_leb : AddressEntry → AddressEntry → Bool
entry_leb a b =
    if a.normalized_value =s= b.normalized_value
    then kind_leb a.kind b.kind
    else leb_text a.normalized_value b.normalized_value

-- `_sorted_entries`
unfoldable pub sorted_entries : List AddressEntry → List AddressEntry
sorted_entries entries = sort_by entry_leb entries

module _ (registry : OwnershipRegistry) (prefix : String) where
  -- the tests of `_require_rule_list` on what was found by name
  unfoldable pub require_paired :
      ManagedBlockedSenderRule → Option ManagedAddressList → Result ManagedAddressList
  require_paired rule none = err ambiguous_target
  require_paired rule (some l) = do
    raise_if (not (l.ownership_id == rule.ownership_id)) ambiguous_target
    require_owned_address_list l registry prefix
    ok l

  -- `_require_rule_list`
  unfoldable pub require_rule_list :
      ManagedBlockedSenderRule → Dict ManagedAddressList → Result ManagedAddressList
  unfolding require_paired
  require_rule_list rule lists = do
    name ← or_raise (only rule.address_list_names) ambiguous_target
    require_paired rule (only (lists_named name lists))

  -- the loop of `_owned_bypass_lists`
  unfoldable pub owned_lists :
      List String → Dict ManagedAddressList → Result (List ManagedAddressList)
  owned_lists [] lists = ok []
  owned_lists (name ∷ names) lists = do
    l ← or_raise (only (lists_named name lists)) ambiguous_target
    require_owned_address_list l registry prefix
    rest ← owned_lists names lists
    ok (l ∷ rest)

  -- `_owned_bypass_lists`
  unfoldable pub owned_bypass_lists :
      ManagedBlockedSenderRule → Dict ManagedAddressList → Result (List ManagedAddressList)
  unfolding owned_lists
  owned_bypass_lists rule lists = owned_lists rule.bypass_address_list_names lists

-- `_require_unique_display_names`
unfoldable pub require_unique_display_names :
    Dict ManagedBlockedSenderRule → Dict ManagedAddressList → List String → Result (Unit {0})
require_unique_display_names rules lists unmanaged = do
  raise_if (has_duplicates (map (λ r. r.display_name) (values rules) ++ unmanaged)) ambiguous_target
  raise_if (has_duplicates (map (λ l. l.display_name) (values lists))) ambiguous_target
