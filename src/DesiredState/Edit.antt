-- ===== src/DesiredState/Edit.antt =====
-- domain/desired_state.py: updating, re-noticing, emptying, enabling and removing existing rules.
use google_workspace_gmail_a.Common.{
  ℕ, String, Bool, not, some, List, [], ◌∷◌, map, if◌then◌else◌, Result, ok, ambiguous_target,
  raise_if, or_raise, ◌>>=◌, ◌>>◌, select, mem_text, Dict, insert, values, same_notice, any, length,
}
use google_workspace_gmail_a.Schemas.Resources.{
  AddressEntry, ManagedAddressList, ManagedBlockedSenderRule,
}
use google_workspace_gmail_a.Schemas.Plan.{
  RemoveBlockedEntries, SetRejectionNotice, UpdateBlockedSenderRule, RemoveBlockedSenderRule,
  SetBlockedSenderRuleEnabled,
}
use google_workspace_gmail_a.Ownership.{
  OwnershipRegistry, require_owned_rule, require_owned_address_list,
}
use google_workspace_gmail_a.DesiredState.WorkingSets.{
  Working, require_rule, require_rule_list, sorted_entries, owned_bypass_lists, delete, only,
  lists_named,
}
use google_workspace_gmail_a.DesiredState.Create.{create_bypass}

-- `for surplus in …: del address_lists[surplus.ownership_id]`
unfoldable pub delete_lists :
    List ManagedAddressList → Dict ManagedAddressList → Result (Dict ManagedAddressList)
unfolding delete
delete_lists [] lists = ok lists
delete_lists (l ∷ ls) lists = do fewer ← delete l.ownership_id lists; delete_lists ls fewer

-- The three branches of `_update_rule` on the new bypass entries and the lists that are there.
unfoldable pub replace_bypass :
    String → List AddressEntry → List ManagedAddressList → Working → Result (Working × List String)
unfolding create_bypass delete_lists
replace_bypass prefix [] existing w = do
  lists ← delete_lists existing w.address_lists
  ok (record w { address_lists = lists }, [])
replace_bypass prefix (e ∷ es) [] w = create_bypass prefix (e ∷ es) w
replace_bypass prefix (e ∷ es) (b ∷ surplus) w = do
  let kept = insert b.ownership_id (record b { entries = sorted_entries (e ∷ es) }) w.address_lists
  lists ← delete_lists surplus kept
  ok (record w { address_lists = lists }, b.display_name ∷ [])

abbrev pub is_referenced : String → List ManagedBlockedSenderRule → Bool
is_referenced name rules = any (λ r. mem_text name r.address_list_names) rules

abbrev pub is_referenced_bypass : String → List ManagedBlockedSenderRule → Bool
is_referenced_bypass name rules = any (λ r. mem_text name r.bypass_address_list_names) rules

module _ (registry : OwnershipRegistry) (prefix : String) where
  -- `_update_rule`
  unfoldable pub apply_update : UpdateBlockedSenderRule → Working → Result Working
  unfolding replace_bypass
  apply_update a w = do
    rule ← require_rule a.target_rule_id w.rules
    require_owned_rule rule registry prefix
    raise_if rule.inherited ambiguous_target
    primary ← require_rule_list registry prefix rule w.address_lists
    let lists =
        insert primary.ownership_id (record primary { entries = sorted_entries a.entries })
          w.address_lists
    existing ← owned_bypass_lists registry prefix rule lists
    (w', names) ←
        replace_bypass prefix a.bypass_entries existing (record w { address_lists = lists })
    ok (record w' {
      rules =
          insert rule.ownership_id
            (record rule {
              bypass_address_list_names = names;
              rejection_notice = a.rejection_notice;
              enabled = a.enabled;
            })
            w'.rules;
    })

  -- `_remove_entries`
  unfoldable pub apply_remove_entries : RemoveBlockedEntries → Working → Result Working
  apply_remove_entries a w = do
    rule ← require_rule a.target_rule_id w.rules
    require_owned_rule rule registry prefix
    l ← require_rule_list registry prefix rule w.address_lists
    let removed = map (λ e. e.normalized_value) a.entries
    let remaining = select (λ e. not (mem_text e.normalized_value removed)) l.entries
    ok (record w {
      address_lists =
          insert l.ownership_id (record l { entries = sorted_entries remaining }) w.address_lists;
    })

  -- `_set_notice`, with the number of entries whose notice changes
  unfoldable pub apply_set_notice : SetRejectionNotice → Working → Result (Working × ℕ)
  apply_set_notice a w = do
    rule ← require_rule a.target_rule_id w.rules
    require_owned_rule rule registry prefix
    l ← require_rule_list registry prefix rule w.address_lists
    ok (
        if same_notice rule.rejection_notice (some a.rejection_notice) then (w, 0) else (
          record w {
            rules =
                insert rule.ownership_id
                  (record rule { rejection_notice = some a.rejection_notice }) w.rules;
          },
          length l.entries,
        ))

  -- the branch of `calculate_desired_state` on `SetBlockedSenderRuleEnabled`
  unfoldable pub apply_set_enabled : SetBlockedSenderRuleEnabled → Working → Result Working
  apply_set_enabled a w = do
    rule ← require_rule a.target_rule_id w.rules
    require_owned_rule rule registry prefix
    raise_if rule.inherited ambiguous_target
    ok (record w { rules = insert rule.ownership_id (record rule { enabled = a.enabled }) w.rules })

  -- the loop of `_remove_rule` over the bypass lists
  unfoldable pub remove_bypass :
      List String
      → List ManagedBlockedSenderRule
      → Dict ManagedAddressList
      → Result (Dict ManagedAddressList)
  unfolding delete
  remove_bypass [] rules lists = ok lists
  remove_bypass (name ∷ names) rules lists = do
    l ← or_raise (only (lists_named name lists)) ambiguous_target
    require_owned_address_list l registry prefix
    raise_if (is_referenced_bypass name rules) ambiguous_target
    fewer ← delete l.ownership_id lists
    remove_bypass names rules fewer

  -- the part of `_remove_rule` behind `if not action.remove_owned_address_list: return`
  unfoldable pub remove_lists :
      ManagedBlockedSenderRule → ManagedAddressList → Working → Result Working
  unfolding remove_bypass delete
  remove_lists rule l w = do
    raise_if (is_referenced l.display_name (values w.rules)) ambiguous_target
    lists ← delete l.ownership_id w.address_lists
    lists' ← remove_bypass rule.bypass_address_list_names (values w.rules) lists
    ok (record w { address_lists = lists' })

  -- `_remove_rule`
  unfoldable pub apply_remove_rule : RemoveBlockedSenderRule → Working → Result Working
  unfolding remove_lists delete
  apply_remove_rule a w = do
    rule ← require_rule a.target_rule_id w.rules
    require_owned_rule rule registry prefix
    l ← require_rule_list registry prefix rule w.address_lists
    rules ← delete rule.ownership_id w.rules
    let fewer = record w { rules = rules }
    if a.remove_owned_address_list then remove_lists rule l fewer else ok fewer
