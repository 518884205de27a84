-- ===== src/ComplianceState/Actions.antt =====
-- domain/compliance_desired_state.py: each action against a rule that it may not change.
use google_workspace_gmail_a.Common.{
  ℕ, String, Bool, false, Option, none, some, List, [], ◌∷◌, ◌≡◌, ◌≢◌, refl, sym, ap, ◌∙◌, subst,
  lookup, contains, lookup-IsKeyed, lookup_of_not_contains, All, ok, value_error, ambiguous_target,
  raise_if, raise_if-eq-ok, or_raise-eq-ok, >>=-eq-ok, >>-eq-ok, ok-injective, ◌==◌, arith, not,
}
use google_workspace_gmail_a.Schemas.Compliance.{
  ManagedContentComplianceRule, validate_managed, validate_draft,
}
use google_workspace_gmail_a.Schemas.Resources.{is_within}
use google_workspace_gmail_a.Schemas.Plan.{
  Action, create_compliance, update_compliance, remove_compliance, set_compliance_enabled,
  CreateContentComplianceRule, UpdateContentComplianceRule, RemoveContentComplianceRule,
  SetContentComplianceRuleEnabled, validate_compliance_update,
}
use google_workspace_gmail_a.Ownership.{
  OwnershipRegistry, ComplianceOwnershipRecord, require_owned_compliance_rule,
}
use google_workspace_gmail_a.DesiredState.{next_identifier}
use google_workspace_gmail_a.ComplianceState.{
  Progress, require_compliance_rule, managed_of, validate_expressions, create_compliance_rule,
  update_compliance_rule, remove_compliance_rule, enable_compliance_rule, apply_compliance,
  apply_actions, same_ou,
}
use google_workspace_gmail_a.ComplianceState.Kept.{
  id_of, IsIdentified, Holds, IsProtected, other_id, Holds-insert, Holds-erase,
}

-- The validators of a managed rule keep its ID.
pub validate_managed-id :
    (r q : ManagedContentComplianceRule)
    → validate_managed r ≡ ok q
    → q.ownership_id ≡ r.ownership_id
unfolding validate_managed
validate_managed-id r q h =
    let (_, _, rest) = >>-eq-ok (raise_if (not (is_within 1 200 r.display_name)) value_error) _ h in
    let (draft, _, returned) = >>=-eq-ok (validate_draft r.draft) _ rest in
    ap id_of (sym (ok-injective returned))

-- An accepted update names its own rule.
pub identified :
    (a : UpdateContentComplianceRule)
    → validate_compliance_update a ≡ ok a
    → a.rule.ownership_id ≡ a.target_rule_id
unfolding validate_compliance_update
identified a h =
    let (_, tested, _) =
      >>-eq-ok (raise_if (not (a.rule.ownership_id == a.target_rule_id)) value_error) _ h in
    equal_of (a.rule.ownership_id) a.target_rule_id (raise_if-eq-ok _ value_error tested)
  where
    equal_of : (m n : ℕ) → not (m == n) ≡ false → m ≡ n
    equal_of m n e = ground arith

module _ (compiles : String → Bool) (registry : OwnershipRegistry) (prefix : String)
    (available : List String) (r : ManagedContentComplianceRule) where
  pub create-Holds :
      (a : CreateContentComplianceRule) (w w' : Progress)
      → Holds r w.rules
      → create_compliance_rule compiles a w prefix available ≡ ok w'
      → Holds r w'.rules
  unfolding create_compliance_rule
  create-Holds a w w' h e =
      let (next, _, e1) = >>=-eq-ok (next_identifier w.identifiers) _ e in
      let (_, fresh, e2) = >>-eq-ok (raise_if (contains next.0 w.rules) value_error) _ e1 in
      let (rule, made, e3) = >>=-eq-ok (validate_managed (managed_of prefix a.rule next.0)) _ e2 in
      let (_, _, e4) =
        >>-eq-ok (validate_expressions compiles rule.draft.expressions available) _ e3 in
      let free = lookup_of_not_contains next.0 w.rules (raise_if-eq-ok _ value_error fresh) in
      subst (λ x. Holds r x.rules) (ok-injective e4)
        (Holds-insert registry prefix r w.rules next.0 rule (validate_managed-id _ rule made)
          (λ same. clash (sym free ∙ ap (λ i. lookup i w.rules) (sym same) ∙ h.held)) h)
    where
      clash : ◌≡◌ {A = Option ManagedContentComplianceRule} none (some r) → ⊥
      clash p = cc

module _ (compiles : String → Bool) (registry : OwnershipRegistry) (prefix : String)
    (available : List String) (r : ManagedContentComplianceRule)
    (protected : IsProtected registry prefix r) where
  -- the tests that the other three branches share
  changeable :
      (target : ℕ) (w : Progress) (current : ManagedContentComplianceRule)
      (evidence : ComplianceOwnershipRecord)
      → Holds r w.rules
      → require_compliance_rule target w.rules ≡ ok current
      → require_owned_compliance_rule current registry prefix ≡ ok evidence
      → raise_if current.draft.inherited ambiguous_target ≡ ok tt
      → (r.ownership_id ≢ current.ownership_id) × (current.ownership_id ≡ target)
  changeable target w current evidence h found owned own =
      let at = or_raise-eq-ok (lookup target w.rules) ambiguous_target found in
      (
        other_id registry prefix r protected w.rules target current h at (record {
          evidence = evidence;
          owned = owned;
          own = raise_if-eq-ok _ ambiguous_target own;
        }),
        lookup-IsKeyed id_of target current w.rules h.keyed at,
      )

  update-Holds :
      (a : UpdateContentComplianceRule) (w w' : Progress)
      → validate_compliance_update a ≡ ok a
      → Holds r w.rules
      → update_compliance_rule compiles registry prefix available a w ≡ ok w'
      → Holds r w'.rules
  unfolding update_compliance_rule
  update-Holds a w w' valid h e =
      let (current, found, e1) = >>=-eq-ok (require_compliance_rule a.target_rule_id w.rules) _ e in
      let (evidence, owned, e2) =
        >>-eq-ok (require_owned_compliance_rule current registry prefix) _ e1 in
      let (_, own, e3) = >>-eq-ok (raise_if current.draft.inherited ambiguous_target) _ e2 in
      let (_, _, e4) =
        >>-eq-ok
          (raise_if (not (same_ou a.rule.draft.target_ou current.draft.target_ou)) ambiguous_target)
          _ e3 in
      let (_, _, e5) =
        >>-eq-ok (validate_expressions compiles a.rule.draft.expressions available) _ e4 in
      let (ne, key) = changeable a.target_rule_id w current evidence h found owned own in
      subst (λ x. Holds r x.rules) (ok-injective e5)
        (Holds-insert registry prefix r w.rules current.ownership_id _
          (identified a valid ∙ sym key) ne h)

  remove-Holds :
      (a : RemoveContentComplianceRule) (w w' : Progress)
      → Holds r w.rules
      → remove_compliance_rule compiles registry prefix available a w ≡ ok w'
      → Holds r w'.rules
  unfolding remove_compliance_rule
  remove-Holds a w w' h e =
      let (current, found, e1) = >>=-eq-ok (require_compliance_rule a.target_rule_id w.rules) _ e in
      let (evidence, owned, e2) =
        >>-eq-ok (require_owned_compliance_rule current registry prefix) _ e1 in
      let (_, own, e3) = >>-eq-ok (raise_if current.draft.inherited ambiguous_target) _ e2 in
      let (ne, _) = changeable a.target_rule_id w current evidence h found owned own in
      subst (λ x. Holds r x.rules) (ok-injective e3)
        (Holds-erase registry prefix r w.rules current.ownership_id ne h)

  enable-Holds :
      (a : SetContentComplianceRuleEnabled) (w w' : Progress)
      → Holds r w.rules
      → enable_compliance_rule compiles registry prefix available a w ≡ ok w'
      → Holds r w'.rules
  unfolding enable_compliance_rule
  enable-Holds a w w' h e =
      let (current, found, e1) = >>=-eq-ok (require_compliance_rule a.target_rule_id w.rules) _ e in
      let (evidence, owned, e2) =
        >>-eq-ok (require_owned_compliance_rule current registry prefix) _ e1 in
      let (_, own, e3) = >>-eq-ok (raise_if current.draft.inherited ambiguous_target) _ e2 in
      let (ne, _) = changeable a.target_rule_id w current evidence h found owned own in
      subst (λ x. Holds r x.rules) (ok-injective e3)
        (Holds-insert registry prefix r w.rules current.ownership_id _ refl ne h)

  apply_compliance-Holds :
      (a : Action) (w w' : Progress)
      → IsIdentified a
      → Holds r w.rules
      → apply_compliance compiles registry prefix available a w ≡ ok w'
      → Holds r w'.rules
  unfolding apply_compliance
  apply_compliance-Holds (create_compliance a) w w' i h e =
      create-Holds compiles registry prefix available r a w w' h e
  apply_compliance-Holds (update_compliance a) w w' i h e = update-Holds a w w' i h e
  apply_compliance-Holds (remove_compliance a) w w' i h e = remove-Holds a w w' h e
  apply_compliance-Holds (set_compliance_enabled a) w w' i h e = enable-Holds a w w' h e
  apply_compliance-Holds (Action.add_entries a) w w' i h e =
      subst (λ x. Holds r x.rules) (ok-injective e) h
  apply_compliance-Holds (Action.remove_entries a) w w' i h e =
      subst (λ x. Holds r x.rules) (ok-injective e) h
  apply_compliance-Holds (Action.set_notice a) w w' i h e =
      subst (λ x. Holds r x.rules) (ok-injective e) h
  apply_compliance-Holds (Action.create_rule a) w w' i h e =
      subst (λ x. Holds r x.rules) (ok-injective e) h
  apply_compliance-Holds (Action.update_rule a) w w' i h e =
      subst (λ x. Holds r x.rules) (ok-injective e) h
  apply_compliance-Holds (Action.remove_rule a) w w' i h e =
      subst (λ x. Holds r x.rules) (ok-injective e) h
  apply_compliance-Holds (Action.set_enabled a) w w' i h e =
      subst (λ x. Holds r x.rules) (ok-injective e) h
  apply_compliance-Holds Action.list_rules w w' i h e =
      subst (λ x. Holds r x.rules) (ok-injective e) h
  apply_compliance-Holds Action.list_compliance w w' i h e =
      subst (λ x. Holds r x.rules) (ok-injective e) h

  pub apply_actions-Holds :
      (actions : List Action) (w w' : Progress)
      → All IsIdentified actions
      → Holds r w.rules
      → apply_actions compiles registry prefix available actions w ≡ ok w'
      → Holds r w'.rules
  unfolding apply_actions
  apply_actions-Holds [] w w' i h e = subst (λ x. Holds r x.rules) (ok-injective e) h
  apply_actions-Holds (a ∷ actions) w w' i h e =
      let (next, done, rest) =
        >>=-eq-ok (apply_compliance compiles registry prefix available a w) _ e in
      apply_actions-Holds actions next w' i.1 (apply_compliance-Holds a w next i.0 h done) rest
