-- ===== src/DesiredState/Create.antt =====
-- domain/desired_state.py: creating a rule with its lists, and adding entries to one.
use google_workspace_gmail_a.Common.{
  ℕ, String, Bool, true, false, not, ◌||◌, Option, none, some, List, [], ◌∷◌, ◌++◌, map,
  if◌then◌else◌, Result, ok, err, ambiguous_target, value_error, raise_if, ◌>>=◌, ◌>>◌, select,
  mem_text, Dict, contains, insert, values, same_notice,
}
use google_workspace_gmail_a.Schemas.Resources.{
  AddressEntry, ManagedAddressList, ManagedBlockedSenderRule, validate_address_list, validate_rule,
}
use google_workspace_gmail_a.Schemas.Plan.{AddBlockedEntries, CreateBlockedSenderRule}
use google_workspace_gmail_a.Ownership.{
  OwnershipRegistry, require_owned_rule, managed_resource_names, bypass_list_name,
}
use google_workspace_gmail_a.DesiredState.WorkingSets.{
  Working, require_rule, require_rule_list, sorted_entries,
}

-- `next(identifiers)`; an exhausted iterator raises `ValueError`
unfoldable pub next_identifier : List ℕ → Result (ℕ × List ℕ)
next_identifier [] = err value_error
next_identifier (id ∷ rest) = ok (id, rest)

abbrev pub new_list : ℕ → String → List AddressEntry → ManagedAddressList
new_list id name entries = record {
  ownership_id = id;
  display_name = name;
  entries = sorted_entries entries;
}

abbrev pub new_rule :
    ℕ → String → String → String → List String → Option String → Bool → ManagedBlockedSenderRule
new_rule id name target_ou list_name bypass_names notice enabled = record {
  ownership_id = id;
  display_name = name;
  target_ou = target_ou;
  address_list_names = list_name ∷ [];
  bypass_address_list_names = bypass_names;
  rejection_notice = notice;
  enabled = enabled;
  inherited = false;
}

-- The bypass list of a new rule, if there are entries for it, and the names that the rule holds.
-- Here, unlike for the rule's own list, no test asks whether the identifier is taken.
unfoldable pub create_bypass : String → List AddressEntry → Working → Result (Working × List String)
unfolding next_identifier
create_bypass prefix [] w = ok (w, [])
create_bypass prefix (e ∷ es) w = do
  (id, rest) ← next_identifier w.identifiers
  let name = bypass_list_name prefix id
  l ← validate_address_list (new_list id name (e ∷ es))
  ok (record w { address_lists = insert id l w.address_lists; identifiers = rest }, name ∷ [])

-- `_create_rule`
unfoldable pub create_rule :
    String
    → List AddressEntry
    → Option String
    → String
    → List AddressEntry
    → Bool
    → Working
    → Result Working
unfolding next_identifier create_bypass
create_rule prefix entries notice target_ou bypass_entries enabled w = do
  (id, rest) ← next_identifier w.identifiers
  raise_if (contains id w.rules || contains id w.address_lists) value_error
  let (rule_name, list_name) = managed_resource_names prefix id
  l ← validate_address_list (new_list id list_name entries)
  let listed = record w { address_lists = insert id l w.address_lists; identifiers = rest }
  (w', bypass_names) ← create_bypass prefix bypass_entries listed
  rule ← validate_rule (new_rule id rule_name target_ou list_name bypass_names notice enabled)
  ok (record w' { rules = insert id rule w'.rules })

-- `_create_rule` with no bypass list, enabled, as an `AddBlockedEntries` calls it
abbrev pub create_for : String → AddBlockedEntries → Working → Result Working
create_for prefix a w = create_rule prefix a.entries a.rejection_notice a.target_ou [] true w

abbrev pub Target : Type 0
Target = ManagedBlockedSenderRule × ManagedAddressList

abbrev pub unambiguous : List Target → Result (Option Target)
unambiguous [] = ok none
unambiguous (t ∷ []) = ok (some t)
unambiguous (t ∷ u ∷ us) = err ambiguous_target

-- `existing` and `combined`
abbrev pub combined : List AddressEntry → List AddressEntry → List AddressEntry
combined old new =
    old ++ select (λ e. not (mem_text e.normalized_value (map (λ o. o.normalized_value) old))) new

-- `action.rejection_notice is not None and action.rejection_notice != rule.rejection_notice`
abbrev pub other_notice : Option String → Option String → Bool
other_notice none old = false
other_notice (some n) old = not (same_notice (some n) old)

module _ (registry : OwnershipRegistry) (prefix : String) where
  -- the loop of `_resolve_add_target` over the rules with the requested notice
  unfoldable pub candidates :
      Option String → Dict ManagedAddressList → List ManagedBlockedSenderRule → Result (List Target)
  candidates notice lists [] = ok []
  candidates notice lists (rule ∷ rules) =
      let rest = candidates notice lists rules in
      if not (same_notice rule.rejection_notice notice) then rest else (do
        require_owned_rule rule registry prefix
        l ← require_rule_list registry prefix rule lists
        more ← rest
        ok ((rule, l) ∷ more))

  -- `_resolve_add_target`
  unfoldable pub resolve_add_target : Option ℕ → Option String → Working → Result (Option Target)
  unfolding candidates
  resolve_add_target (some id) notice w = do
    rule ← require_rule id w.rules
    require_owned_rule rule registry prefix
    l ← require_rule_list registry prefix rule w.address_lists
    ok (some (rule, l))
  resolve_add_target none notice w = do
    found ← candidates notice w.address_lists (values w.rules)
    unambiguous found

  -- what an `AddBlockedEntries` does with its target
  unfoldable pub add_to : AddBlockedEntries → Working → Option Target → Result Working
  add_to a w none = create_for prefix a w
  add_to a w (some (rule, l)) =
      if other_notice a.rejection_notice rule.rejection_notice
      then create_for prefix a w
      else ok (record w {
        address_lists =
            insert l.ownership_id
              (record l { entries = sorted_entries (combined l.entries a.entries) })
              w.address_lists;
      })

  -- `_apply_create_or_add` of an `AddBlockedEntries`
  unfoldable pub apply_add : AddBlockedEntries → Working → Result Working
  unfolding add_to
  apply_add a w = do
    target ← resolve_add_target a.target_rule_id a.rejection_notice w
    add_to a w target

-- `_apply_create_or_add` of a `CreateBlockedSenderRule`
unfoldable pub apply_create : String → CreateBlockedSenderRule → Working → Result Working
apply_create prefix a w =
    create_rule prefix a.entries a.rejection_notice a.target_ou a.bypass_entries a.enabled w
