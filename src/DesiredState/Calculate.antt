-- ===== src/DesiredState/Calculate.antt =====
-- domain/desired_state.py: the loop over the actions of a plan, and the state that it returns.
use google_workspace_gmail_a.Common.{
  ℕ, ◌+◌, String, Bool, not, List, [], ◌∷◌, Result, ok, err, ambiguous_target, raise_if, ◌>>=◌,
  ◌>>◌, leb, leb_text, sort_by, values, ◌=s=◌, index_by,
}
use google_workspace_gmail_a.Schemas.Resources.{ManagedAddressList, ManagedBlockedSenderRule}
use google_workspace_gmail_a.Schemas.State.{BlockedSenderState, DesiredStateResult, validate_state}
use google_workspace_gmail_a.Schemas.Plan.{
  Action, add_entries, remove_entries, set_notice, create_rule, update_rule, remove_rule,
  set_enabled, TaskPlan,
}
use google_workspace_gmail_a.Ownership.{OwnershipRegistry}
use google_workspace_gmail_a.DesiredState.WorkingSets.{Working, require_unique_display_names}
use google_workspace_gmail_a.DesiredState.Create.{apply_add, apply_create}
use google_workspace_gmail_a.DesiredState.Edit.{
  apply_update, apply_remove_entries, apply_set_notice, apply_set_enabled, apply_remove_rule,
}

-- `getattr(action, "target_ou", current_state.target_ou)`
abbrev pub requested_ou : String → Action → String
requested_ou current (add_entries a) = a.target_ou
requested_ou current (create_rule a) = a.target_ou
requested_ou current _ = current

abbrev pub counted : ℕ → Result Working → Result (Working × ℕ)
counted n (ok w) = ok (w, n)
counted n (err e) = err e

abbrev pub added : ℕ → Working × ℕ → Working × ℕ
added n (w, m) = (w, n + m)

module _ (registry : OwnershipRegistry) (prefix : String) where
  -- The dispatch on the action's class, with the sum of the affected entries. The actions on
  -- content compliance match no branch.
  unfoldable pub dispatch : Action → Working → ℕ → Result (Working × ℕ)
  dispatch (create_rule a) w n = counted n (apply_create prefix a w)
  dispatch (add_entries a) w n = counted n (apply_add registry prefix a w)
  dispatch (remove_entries a) w n = counted n (apply_remove_entries registry prefix a w)
  dispatch (update_rule a) w n = counted n (apply_update registry prefix a w)
  dispatch (set_notice a) w n = do r ← apply_set_notice registry prefix a w; ok (added n r)
  dispatch (set_enabled a) w n = counted n (apply_set_enabled registry prefix a w)
  dispatch (remove_rule a) w n = counted n (apply_remove_rule registry prefix a w)
  dispatch _ w n = ok (w, n)

  -- one round of the loop
  unfoldable pub apply_action : String → Action → Working → ℕ → Result (Working × ℕ)
  unfolding dispatch
  apply_action ou a w n = do
    raise_if (not (requested_ou ou a =s= ou)) ambiguous_target
    dispatch a w n

  -- `for action in plan.actions`
  unfoldable pub apply_all : String → List Action → Working → ℕ → Result (Working × ℕ)
  unfolding apply_action
  apply_all ou [] w n = ok (w, n)
  apply_all ou (a ∷ actions) w n = do (w', n') ← apply_action ou a w n; apply_all ou actions w' n'

abbrev pub rule_leb : ManagedBlockedSenderRule → ManagedBlockedSenderRule → Bool
rule_leb a b = leb a.ownership_id b.ownership_id

abbrev pub list_leb : ManagedAddressList → ManagedAddressList → Bool
list_leb a b = leb a.ownership_id b.ownership_id

-- the two dictionaries that the loop starts from
unfoldable pub start : BlockedSenderState → List ℕ → Working
start s ids = record {
  rules = index_by (λ r. r.ownership_id) s.rules;
  address_lists = index_by (λ l. l.ownership_id) s.address_lists;
  identifiers = ids;
}

-- `desired`, before its validator
unfoldable pub collect : BlockedSenderState → Working → BlockedSenderState
collect s w = record {
  target_ou = s.target_ou;
  rules = sort_by rule_leb (values w.rules);
  address_lists = sort_by list_leb (values w.address_lists);
  unmanaged_rule_names = sort_by leb_text s.unmanaged_rule_names;
}

unfoldable pub calculate_desired_state :
    BlockedSenderState → TaskPlan → OwnershipRegistry → List ℕ → String → Result DesiredStateResult
unfolding apply_all start collect
calculate_desired_state s p registry ids prefix = do
  (w, affected) ← apply_all registry prefix s.target_ou p.actions (start s ids) 0
  require_unique_display_names w.rules w.address_lists s.unmanaged_rule_names
  desired ← validate_state (collect s w)
  ok (record { desired_state = desired; notice_affected_entry_count = affected })
