-- ===== src/DesiredState/Safety.antt =====
-- What `calculate_desired_state` may change of the resources that are there.
use google_workspace_gmail_a.Common.{
  ℕ, String, false, some, List, ◌≡◌, sym, subst, ◌∙◌, All, Result, ok, err, Error,
  ownership_not_established, Dict, lookup, contains, values, map, DistinctBy, ◌==◌, repeats_by_iff,
  lookup-index_by, values-Memᴰ, Memᴰ-sort_by, lookup_of_not_contains, raise_if, raise_if-eq-ok,
  value_error, >>-eq-ok,
}
use mathlib.Core.List.{Memᴰ}
use google_workspace_gmail_a.Schemas.Resources.{ManagedAddressList, ManagedBlockedSenderRule}
use google_workspace_gmail_a.Schemas.State.{
  BlockedSenderState, DesiredStateResult, validate_state, has_duplicate_ids,
}
use google_workspace_gmail_a.Schemas.Plan.{TaskPlan}
use google_workspace_gmail_a.Ownership.{
  OwnershipRegistry, require_owned_rule, require_owned_address_list,
}
use google_workspace_gmail_a.DesiredState.Calculate.{
  start, collect, calculate_desired_state, rule_leb, list_leb, requested_ou,
}
use google_workspace_gmail_a.DesiredState.Steps
use google_workspace_gmail_a.DesiredState.Moves.{
  rule_id, list_id, IsOwnedRule, IsOwnedList, IsNewRule,
}
use google_workspace_gmail_a.DesiredState.Run.{
  calculate_desired_state-Calculated, Calculated-Moves, apply_all-target_ou,
}

-- A state that pydantic has built has distinct ownership IDs.
pub validate_state-Distinct :
    (s s' : BlockedSenderState)
    → validate_state s ≡ ok s'
    → DistinctBy ◌==◌ (map rule_id s.rules) × DistinctBy ◌==◌ (map list_id s.address_lists)
unfolding validate_state
validate_state-Distinct s s' h =
    let rules = map rule_id s.rules in
    let lists = map list_id s.address_lists in
    let (_, e1, h1) = >>-eq-ok (raise_if (has_duplicate_ids rules) value_error) _ h in
    let (_, e2, _) = >>-eq-ok (raise_if (has_duplicate_ids lists) value_error) _ h1 in
    (
      (repeats_by_iff ◌==◌ rules).0 (raise_if-eq-ok (has_duplicate_ids rules) value_error e1),
      (repeats_by_iff ◌==◌ lists).0 (raise_if-eq-ok (has_duplicate_ids lists) value_error e2),
    )

-- Where a check fails, ownership is not established.
not_owned : {A : Type 0} (r : Result A) (e : Error) → r ≡ err e → ((a : A) × (r ≡ ok a)) → ⊥
not_owned r e p q = let clash = sym p ∙ q.1 in cc

-- A rule of a well-formed observed state for which ownership is not established (no local record,
-- no visible prefix, another recorded name or another recorded target) stands unchanged in the
-- desired state, whatever the plan and the injected identifiers, if the calculation succeeds.
pub calculate_desired_state-keeps_unowned_rule :
    (s : BlockedSenderState) (p : TaskPlan) (g : OwnershipRegistry) (ids : List ℕ) (prefix : String)
    (d : DesiredStateResult) (rule : ManagedBlockedSenderRule)
    → validate_state s ≡ ok s
    → calculate_desired_state s p g ids prefix ≡ ok d
    → Memᴰ rule s.rules
    → require_owned_rule rule g prefix ≡ err ownership_not_established
    → Memᴰ rule d.desired_state.rules
unfolding start collect
calculate_desired_state-keeps_unowned_rule s p g ids prefix d rule valid h m unowned =
    let c = calculate_desired_state-Calculated s p g ids prefix d h in
    let moves = Calculated-Moves s p g ids prefix d c in
    let before = lookup-index_by rule_id rule s.rules (validate_state-Distinct s s valid).0 m in
    let after =
      Steps.Reach-kept rule_id (IsOwnedRule g prefix) (IsNewRule (λ i. Memᴰ i ids))
        rule.ownership_id rule (not_owned _ ownership_not_established unowned)
        (λ e at new. taken e at new.0) moves.rules before in
    subst (λ x. Memᴰ rule x.rules) (sym c.collected)
      (Memᴰ-sort_by rule_leb rule (values c.final.rules)
        (values-Memᴰ rule.ownership_id rule c.final.rules after))
  where
    taken :
        (e : Dict ManagedBlockedSenderRule)
        → lookup rule.ownership_id e ≡ some rule
        → contains rule.ownership_id e ≡ false
        → ⊥
    taken e at absent =
        let clash = sym (lookup_of_not_contains rule.ownership_id e absent) ∙ at in cc

-- The same of an address list, if none of the injected identifiers is its own. (The code does not
-- test the identifier of a new bypass list; the premise is what fresh UUIDs give.)
pub calculate_desired_state-keeps_unowned_list :
    (s : BlockedSenderState) (p : TaskPlan) (g : OwnershipRegistry) (ids : List ℕ) (prefix : String)
    (d : DesiredStateResult) (l : ManagedAddressList)
    → validate_state s ≡ ok s
    → calculate_desired_state s p g ids prefix ≡ ok d
    → Memᴰ l s.address_lists
    → require_owned_address_list l g prefix ≡ err ownership_not_established
    → ¬ (Memᴰ l.ownership_id ids)
    → Memᴰ l d.desired_state.address_lists
unfolding start collect
calculate_desired_state-keeps_unowned_list s p g ids prefix d l valid h m unowned fresh =
    let c = calculate_desired_state-Calculated s p g ids prefix d h in
    let moves = Calculated-Moves s p g ids prefix d c in
    let before =
      lookup-index_by list_id l s.address_lists (validate_state-Distinct s s valid).1 m in
    let after =
      Steps.Reach-kept list_id (IsOwnedList g prefix) (λ i e. Memᴰ i ids) l.ownership_id l
        (not_owned _ ownership_not_established unowned) (λ e at new. fresh new) moves.lists
        before in
    subst (λ x. Memᴰ l x.address_lists) (sym c.collected)
      (Memᴰ-sort_by list_leb l (values c.final.address_lists)
        (values-Memᴰ l.ownership_id l c.final.address_lists after))

-- If the calculation succeeds, every action that names a target is for the observed
-- organizational unit.
pub calculate_desired_state-target_ou :
    (s : BlockedSenderState) (p : TaskPlan) (g : OwnershipRegistry) (ids : List ℕ) (prefix : String)
    (d : DesiredStateResult)
    → calculate_desired_state s p g ids prefix ≡ ok d
    → All (λ a. requested_ou s.target_ou a ≡ s.target_ou) p.actions
calculate_desired_state-target_ou s p g ids prefix d h =
    let c = calculate_desired_state-Calculated s p g ids prefix d h in
    apply_all-target_ou g prefix s.target_ou p.actions (start s ids) 0 (c.final, c.count) c.looped
