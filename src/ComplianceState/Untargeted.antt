-- ===== src/ComplianceState/Untargeted.antt =====
-- domain/compliance_desired_state.py: the rules that no action targets.
use mathlib.Core.List.{Memᴰ}
use google_workspace_gmail_a.Common.{
  ℕ, String, Bool, not, List, [], ◌∷◌, ◌≡◌, ◌≢◌, refl, sym, ◌∙◌, subst, lookup, lookup-IsKeyed,
  values, index_by, index_onto-IsDict, index_onto-IsKeyed, lookup-index_by, values-Memᴰ,
  Memᴰ-sort_by, All, ok, ambiguous_target, raise_if, or_raise-eq-ok, >>=-eq-ok, >>-eq-ok,
  ok-injective,
}
use google_workspace_gmail_a.Schemas.Compliance.{
  ManagedContentComplianceRule, ContentComplianceState, validate_compliance_state,
}
use google_workspace_gmail_a.Schemas.Plan.{
  Action, create_compliance, update_compliance, remove_compliance, set_compliance_enabled,
  UpdateContentComplianceRule, RemoveContentComplianceRule, SetContentComplianceRuleEnabled,
  TaskPlan, validate_compliance_update,
}
use google_workspace_gmail_a.Ownership.{OwnershipRegistry, require_owned_compliance_rule}
use google_workspace_gmail_a.ComplianceState.{
  Progress, start_rules, require_compliance_rule, validate_expressions, update_compliance_rule,
  remove_compliance_rule, enable_compliance_rule, apply_compliance, apply_actions, same_ou, id_leb,
  calculate_compliance_desired_state,
}
use google_workspace_gmail_a.ComplianceState.Kept.{
  id_of, IsIdentified, Holds, Holds-insert, Holds-erase,
}
use google_workspace_gmail_a.ComplianceState.Actions.{create-Holds, identified}
use google_workspace_gmail_a.ComplianceState.Safety.{IsCalculated-of_ok, validate-IsAccepted}

-- The action names another rule, or none.
abbrev pub IsElsewhere : ℕ → Action → Type 0
IsElsewhere id (update_compliance a) = id ≢ a.target_rule_id
IsElsewhere id (remove_compliance a) = id ≢ a.target_rule_id
IsElsewhere id (set_compliance_enabled a) = id ≢ a.target_rule_id
IsElsewhere id _ = Unit

module _ (compiles : String → Bool) (registry : OwnershipRegistry) (prefix : String)
    (available : List String) (r : ManagedContentComplianceRule) where
  -- The rule that is found is another one.
  elsewhere :
      (target : ℕ) (w : Progress) (current : ManagedContentComplianceRule)
      → Holds r w.rules
      → r.ownership_id ≢ target
      → require_compliance_rule target w.rules ≡ ok current
      → (r.ownership_id ≢ current.ownership_id) × (current.ownership_id ≡ target)
  elsewhere target w current h ne found =
      let key =
        lookup-IsKeyed id_of target current w.rules h.keyed
          (or_raise-eq-ok (lookup target w.rules) ambiguous_target found) in
      (λ same. ne (same ∙ key), key)

  update-keeps :
      (a : UpdateContentComplianceRule) (w w' : Progress)
      → validate_compliance_update a ≡ ok a
      → r.ownership_id ≢ a.target_rule_id
      → Holds r w.rules
      → update_compliance_rule compiles registry prefix available a w ≡ ok w'
      → Holds r w'.rules
  unfolding update_compliance_rule
  update-keeps a w w' valid ne h e =
      let (current, found, e1) = >>=-eq-ok (require_compliance_rule a.target_rule_id w.rules) _ e in
      let (_, _, e2) = >>-eq-ok (require_owned_compliance_rule current registry prefix) _ e1 in
      let (_, _, e3) = >>-eq-ok (raise_if current.draft.inherited ambiguous_target) _ e2 in
      let (_, _, e4) =
        >>-eq-ok
          (raise_if (not (same_ou a.rule.draft.target_ou current.draft.target_ou)) ambiguous_target)
          _ e3 in
      let (_, _, e5) =
        >>-eq-ok (validate_expressions compiles a.rule.draft.expressions available) _ e4 in
      let (other, key) = elsewhere a.target_rule_id w current h ne found in
      subst (λ x. Holds r x.rules) (ok-injective e5)
        (Holds-insert registry prefix r w.rules current.ownership_id _
          (identified a valid ∙ sym key) other h)

  remove-keeps :
      (a : RemoveContentComplianceRule) (w w' : Progress)
      → r.ownership_id ≢ a.target_rule_id
      → Holds r w.rules
      → remove_compliance_rule compiles registry prefix available a w ≡ ok w'
      → Holds r w'.rules
  unfolding remove_compliance_rule
  remove-keeps a w w' ne h e =
      let (current, found, e1) = >>=-eq-ok (require_compliance_rule a.target_rule_id w.rules) _ e in
      let (_, _, e2) = >>-eq-ok (require_owned_compliance_rule current registry prefix) _ e1 in
      let (_, _, e3) = >>-eq-ok (raise_if current.draft.inherited ambiguous_target) _ e2 in
      let (other, _) = elsewhere a.target_rule_id w current h ne found in
      subst (λ x. Holds r x.rules) (ok-injective e3)
        (Holds-erase registry prefix r w.rules current.ownership_id other h)

  enable-keeps :
      (a : SetContentComplianceRuleEnabled) (w w' : Progress)
      → r.ownership_id ≢ a.target_rule_id
      → Holds r w.rules
      → enable_compliance_rule compiles registry prefix available a w ≡ ok w'
      → Holds r w'.rules
  unfolding enable_compliance_rule
  enable-keeps a w w' ne h e =
      let (current, found, e1) = >>=-eq-ok (require_compliance_rule a.target_rule_id w.rules) _ e in
      let (_, _, e2) = >>-eq-ok (require_owned_compliance_rule current registry prefix) _ e1 in
      let (_, _, e3) = >>-eq-ok (raise_if current.draft.inherited ambiguous_target) _ e2 in
      let (other, _) = elsewhere a.target_rule_id w current h ne found in
      subst (λ x. Holds r x.rules) (ok-injective e3)
        (Holds-insert registry prefix r w.rules current.ownership_id _ refl other h)

  apply_compliance-keeps :
      (a : Action) (w w' : Progress)
      → IsIdentified a
      → IsElsewhere r.ownership_id a
      → Holds r w.rules
      → apply_compliance compiles registry prefix available a w ≡ ok w'
      → Holds r w'.rules
  unfolding apply_compliance
  apply_compliance-keeps (create_compliance a) w w' i ne h e =
      create-Holds compiles registry prefix available r a w w' h e
  apply_compliance-keeps (update_compliance a) w w' i ne h e = update-keeps a w w' i ne h e
  apply_compliance-keeps (remove_compliance a) w w' i ne h e = remove-keeps a w w' ne h e
  apply_compliance-keeps (set_compliance_enabled a) w w' i ne h e = enable-keeps a w w' ne h e
  apply_compliance-keeps (Action.add_entries a) w w' i ne h e =
      subst (λ x. Holds r x.rules) (ok-injective e) h
  apply_compliance-keeps (Action.remove_entries a) w w' i ne h e =
      subst (λ x. Holds r x.rules) (ok-injective e) h
  apply_compliance-keeps (Action.set_notice a) w w' i ne h e =
      subst (λ x. Holds r x.rules) (ok-injective e) h
  apply_compliance-keeps (Action.create_rule a) w w' i ne h e =
      subst (λ x. Holds r x.rules) (ok-injective e) h
  apply_compliance-keeps (Action.update_rule a) w w' i ne h e =
      subst (λ x. Holds r x.rules) (ok-injective e) h
  apply_compliance-keeps (Action.remove_rule a) w w' i ne h e =
      subst (λ x. Holds r x.rules) (ok-injective e) h
  apply_compliance-keeps (Action.set_enabled a) w w' i ne h e =
      subst (λ x. Holds r x.rules) (ok-injective e) h
  apply_compliance-keeps Action.list_rules w w' i ne h e =
      subst (λ x. Holds r x.rules) (ok-injective e) h
  apply_compliance-keeps Action.list_compliance w w' i ne h e =
      subst (λ x. Holds r x.rules) (ok-injective e) h

  apply_actions-keeps :
      (actions : List Action) (w w' : Progress)
      → All IsIdentified actions
      → All (IsElsewhere r.ownership_id) actions
      → Holds r w.rules
      → apply_actions compiles registry prefix available actions w ≡ ok w'
      → Holds r w'.rules
  unfolding apply_actions
  apply_actions-keeps [] w w' i ne h e = subst (λ x. Holds r x.rules) (ok-injective e) h
  apply_actions-keeps (a ∷ actions) w w' i ne h e =
      let (next, done, rest) =
        >>=-eq-ok (apply_compliance compiles registry prefix available a w) _ e in
      apply_actions-keeps actions next w' i.1 ne.1 (apply_compliance-keeps a w next i.0 ne.0 h done)
        rest

-- A rule of a valid observed state that no action targets stands unchanged in the calculated state,
-- whoever owns it and whatever the injected identifiers, if the updates of the plan are valid and
-- the calculation succeeds.
pub calculate_compliance_desired_state-keeps_untargeted :
    (compiles : String → Bool) (s : ContentComplianceState) (p : TaskPlan)
    (registry : OwnershipRegistry) (ids : List ℕ) (prefix : String) (d : ContentComplianceState)
    (r : ManagedContentComplianceRule)
    → validate_compliance_state s ≡ ok s
    → Memᴰ r s.rules
    → All (IsElsewhere r.ownership_id) p.actions
    → All IsIdentified p.actions
    → calculate_compliance_desired_state compiles s p registry ids prefix ≡ ok d
    → Memᴰ r d.rules
calculate_compliance_desired_state-keeps_untargeted compiles s p registry ids prefix d r valid m
      other identified h =
    let done = IsCalculated-of_ok compiles s p registry ids prefix d h in
    let first : Holds r (index_by id_of s.rules) = record {
      dict = index_onto-IsDict id_of [] s.rules tt;
      keyed = index_onto-IsKeyed id_of [] s.rules tt;
      held = lookup-index_by id_of r s.rules (validate-IsAccepted s s valid).ids m;
    } in
    let kept =
      apply_actions-keeps compiles registry prefix s.available_capabilities r p.actions
        (start_rules s ids) done.last identified other first done.applied in
    subst (λ x. Memᴰ r x.rules) done.accepted.same
      (Memᴰ-sort_by id_leb r (values done.last.rules)
        (values-Memᴰ r.ownership_id r done.last.rules kept.held))
