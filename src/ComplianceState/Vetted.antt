-- ===== src/ComplianceState/Vetted.antt =====
-- domain/compliance_desired_state.py: where the expressions of a calculated rule come from.
use mathlib.Core.List.{Memᴰ}
use google_workspace_gmail_a.Common.{
  ℕ, String, Bool, some, List, [], ◌∷◌, ◌≡◌, refl, subst, inl, inr, Dict, lookup, values, insert,
  erase, index_onto, All, All-sort_by, All-self, All-map_imp, ok, value_error, ambiguous_target,
  raise_if, or_raise-eq-ok, >>=-eq-ok, >>-eq-ok, ok-injective, ◌==◌, Bool-cases, if_cases, not,
  contains,
}
use google_workspace_gmail_a.Schemas.Compliance.{
  ComplianceExpression, ManagedContentComplianceRule, ContentComplianceState,
}
use google_workspace_gmail_a.Schemas.Plan.{
  Action, create_compliance, update_compliance, remove_compliance, set_compliance_enabled,
  CreateContentComplianceRule, UpdateContentComplianceRule, RemoveContentComplianceRule,
  SetContentComplianceRuleEnabled, TaskPlan,
}
use google_workspace_gmail_a.Ownership.{OwnershipRegistry, require_owned_compliance_rule}
use google_workspace_gmail_a.DesiredState.{next_identifier}
use google_workspace_gmail_a.ComplianceState.{
  Progress, start_rules, apply_actions, apply_compliance, calculate_compliance_desired_state,
  id_leb, validate_expressions, create_compliance_rule, update_compliance_rule,
  remove_compliance_rule, enable_compliance_rule, managed_of, require_compliance_rule, same_ou,
}
use google_workspace_gmail_a.Schemas.Compliance.{validate_managed}
use google_workspace_gmail_a.ComplianceState.Safety.{IsCalculated-of_ok}
use google_workspace_gmail_a.ComplianceState.Checked.{IsChecked, validate_expressions-IsChecked}

module _ {ℓ κ} {V : Type ℓ} (P : V → Type κ) where
  abbrev AllValues : Dict V → Type κ
  AllValues d = All P (values d)

  AllValues-insert : (k : ℕ) (v : V) (d : Dict V) → P v → AllValues d → AllValues (insert k v d)
  AllValues-insert k v [] p h = (p, tt)
  AllValues-insert k v ((j, w) ∷ d) p h = elim (Bool-cases (j == k)) [
    | inl e ↦ rw e (p, h.1)
    | inr e ↦ rw e (h.0, AllValues-insert k v d p h.1)
  ]

  AllValues-erase : (k : ℕ) (d : Dict V) → AllValues d → AllValues (erase k d)
  AllValues-erase k [] h = tt
  AllValues-erase k ((j, w) ∷ d) h = elim (Bool-cases (j == k)) [
    | inl e ↦ rw e h.1
    | inr e ↦ rw e (h.0, AllValues-erase k d h.1)
  ]

  AllValues-lookup : (k : ℕ) (v : V) (d : Dict V) → AllValues d → lookup k d ≡ some v → P v
  AllValues-lookup k v [] h e = cc
  AllValues-lookup k v ((j, w) ∷ d) h e = elim (if_cases (j == k) e) [
    | inl (_, f) ↦ subst P (found w f) h.0
    | inr (_, f) ↦ AllValues-lookup k v d h.1 f
  ]
    where
      found : (u : V) → some u ≡ some v → u ≡ v
      found u f = cc

  AllValues-index :
      (identity : V → ℕ) (d : Dict V) (xs : List V)
      → AllValues d
      → All P xs
      → AllValues (index_onto identity d xs)
  AllValues-index identity d [] h a = h
  AllValues-index identity d (x ∷ xs) h a =
      AllValues-index identity (insert (identity x) x d) xs
        (AllValues-insert (identity x) x d a.0 h) a.1

module _ (compiles : String → Bool) (observed : List ManagedContentComplianceRule)
    (available : List String) where
  -- The expressions were observed, or each of them is checked: its regular expression compiles and
  -- its capability was observed.
  pub data IsVetted (es : List ComplianceExpression) : Type 0 where
    was_observed :
        (q : ManagedContentComplianceRule)
        → Memᴰ q observed
        → q.draft.expressions ≡ es
        → IsVetted es
    was_checked : All (IsChecked compiles available) es → IsVetted es

  abbrev pub IsVettedRule : ManagedContentComplianceRule → Type 0
  IsVettedRule r = IsVetted r.draft.expressions

  validate_expressions-IsVetted :
      (es : List ComplianceExpression)
      → validate_expressions compiles es available ≡ ok tt
      → IsVetted es
  validate_expressions-IsVetted es tested =
      IsVetted.was_checked (validate_expressions-IsChecked compiles es available tested)

  same :
      (w w' : Progress) → AllValues IsVettedRule w.rules → w ≡ w' → AllValues IsVettedRule w'.rules
  same w w' h e = subst (λ x. AllValues IsVettedRule x.rules) e h

  module _ (registry : OwnershipRegistry) (prefix : String) where
    create-vets :
        (a : CreateContentComplianceRule) (w w' : Progress)
        → AllValues IsVettedRule w.rules
        → create_compliance_rule compiles a w prefix available ≡ ok w'
        → AllValues IsVettedRule w'.rules
    unfolding create_compliance_rule
    create-vets a w w' h e =
        let (next, _, e1) = >>=-eq-ok (next_identifier w.identifiers) _ e in
        let (_, _, e2) = >>-eq-ok (raise_if (contains next.0 w.rules) value_error) _ e1 in
        let (rule, _, e3) = >>=-eq-ok (validate_managed (managed_of prefix a.rule next.0)) _ e2 in
        let (_, tested, e4) =
          >>-eq-ok (validate_expressions compiles rule.draft.expressions available) _ e3 in
        subst (λ x. AllValues IsVettedRule x.rules) (ok-injective e4)
          (AllValues-insert IsVettedRule next.0 rule w.rules
            (validate_expressions-IsVetted rule.draft.expressions tested) h)

    update-vets :
        (a : UpdateContentComplianceRule) (w w' : Progress)
        → AllValues IsVettedRule w.rules
        → update_compliance_rule compiles registry prefix available a w ≡ ok w'
        → AllValues IsVettedRule w'.rules
    unfolding update_compliance_rule
    update-vets a w w' h e =
        let (current, _, e1) = >>=-eq-ok (require_compliance_rule a.target_rule_id w.rules) _ e in
        let (_, _, e2) = >>-eq-ok (require_owned_compliance_rule current registry prefix) _ e1 in
        let (_, _, e3) = >>-eq-ok (raise_if current.draft.inherited ambiguous_target) _ e2 in
        let (_, _, e4) =
          >>-eq-ok
            (raise_if (not (same_ou a.rule.draft.target_ou current.draft.target_ou))
              ambiguous_target)
            _ e3 in
        let (_, tested, e5) =
          >>-eq-ok (validate_expressions compiles a.rule.draft.expressions available) _ e4 in
        subst (λ x. AllValues IsVettedRule x.rules) (ok-injective e5)
          (AllValues-insert IsVettedRule current.ownership_id _ w.rules
            (validate_expressions-IsVetted a.rule.draft.expressions tested) h)

    remove-vets :
        (a : RemoveContentComplianceRule) (w w' : Progress)
        → AllValues IsVettedRule w.rules
        → remove_compliance_rule compiles registry prefix available a w ≡ ok w'
        → AllValues IsVettedRule w'.rules
    unfolding remove_compliance_rule
    remove-vets a w w' h e =
        let (current, _, e1) = >>=-eq-ok (require_compliance_rule a.target_rule_id w.rules) _ e in
        let (_, _, e2) = >>-eq-ok (require_owned_compliance_rule current registry prefix) _ e1 in
        let (_, _, e3) = >>-eq-ok (raise_if current.draft.inherited ambiguous_target) _ e2 in
        subst (λ x. AllValues IsVettedRule x.rules) (ok-injective e3)
          (AllValues-erase IsVettedRule current.ownership_id w.rules h)

    enable-vets :
        (a : SetContentComplianceRuleEnabled) (w w' : Progress)
        → AllValues IsVettedRule w.rules
        → enable_compliance_rule compiles registry prefix available a w ≡ ok w'
        → AllValues IsVettedRule w'.rules
    unfolding enable_compliance_rule
    enable-vets a w w' h e =
        let (current, found, e1) =
          >>=-eq-ok (require_compliance_rule a.target_rule_id w.rules) _ e in
        let (_, _, e2) = >>-eq-ok (require_owned_compliance_rule current registry prefix) _ e1 in
        let (_, _, e3) = >>-eq-ok (raise_if current.draft.inherited ambiguous_target) _ e2 in
        let at = or_raise-eq-ok (lookup a.target_rule_id w.rules) ambiguous_target found in
        subst (λ x. AllValues IsVettedRule x.rules) (ok-injective e3)
          (AllValues-insert IsVettedRule current.ownership_id _ w.rules
            (AllValues-lookup IsVettedRule a.target_rule_id current w.rules h at) h)

    apply_compliance-vets :
        (a : Action) (w w' : Progress)
        → AllValues IsVettedRule w.rules
        → apply_compliance compiles registry prefix available a w ≡ ok w'
        → AllValues IsVettedRule w'.rules
    unfolding apply_compliance
    apply_compliance-vets (create_compliance a) w w' h e = create-vets a w w' h e
    apply_compliance-vets (update_compliance a) w w' h e = update-vets a w w' h e
    apply_compliance-vets (remove_compliance a) w w' h e = remove-vets a w w' h e
    apply_compliance-vets (set_compliance_enabled a) w w' h e = enable-vets a w w' h e
    apply_compliance-vets (Action.add_entries a) w w' h e = same w w' h (ok-injective e)
    apply_compliance-vets (Action.remove_entries a) w w' h e = same w w' h (ok-injective e)
    apply_compliance-vets (Action.set_notice a) w w' h e = same w w' h (ok-injective e)
    apply_compliance-vets (Action.create_rule a) w w' h e = same w w' h (ok-injective e)
    apply_compliance-vets (Action.update_rule a) w w' h e = same w w' h (ok-injective e)
    apply_compliance-vets (Action.remove_rule a) w w' h e = same w w' h (ok-injective e)
    apply_compliance-vets (Action.set_enabled a) w w' h e = same w w' h (ok-injective e)
    apply_compliance-vets Action.list_rules w w' h e = same w w' h (ok-injective e)
    apply_compliance-vets Action.list_compliance w w' h e = same w w' h (ok-injective e)

    apply_actions-vets :
        (actions : List Action) (w w' : Progress)
        → AllValues IsVettedRule w.rules
        → apply_actions compiles registry prefix available actions w ≡ ok w'
        → AllValues IsVettedRule w'.rules
    unfolding apply_actions
    apply_actions-vets [] w w' h e = same w w' h (ok-injective e)
    apply_actions-vets (a ∷ actions) w w' h e =
        let (next, done, rest) =
          >>=-eq-ok (apply_compliance compiles registry prefix available a w) _ e in
        apply_actions-vets actions next w' (apply_compliance-vets a w next h done) rest

-- In a calculated state every rule has the expressions of an observed rule, or expressions that are
-- checked: every match by a regular expression has a pattern that is not blank, has at most 10,000
-- characters and compiles, and the capability that a detector requires was observed.
pub calculate_compliance_desired_state-vets :
    (compiles : String → Bool) (s : ContentComplianceState) (p : TaskPlan)
    (registry : OwnershipRegistry) (ids : List ℕ) (prefix : String) (d : ContentComplianceState)
    → calculate_compliance_desired_state compiles s p registry ids prefix ≡ ok d
    → All (IsVettedRule compiles s.rules s.available_capabilities) d.rules
calculate_compliance_desired_state-vets compiles s p registry ids prefix d h =
    let done = IsCalculated-of_ok compiles s p registry ids prefix d h in
    let vetted : ManagedContentComplianceRule → Type 0 =
      IsVettedRule compiles s.rules s.available_capabilities in
    let first =
      AllValues-index vetted (λ r. r.ownership_id) [] s.rules tt
        (All-map_imp (λ r. Memᴰ r s.rules) vetted s.rules (λ r m. IsVetted.was_observed r m refl)
          (All-self s.rules)) in
    let last =
      apply_actions-vets compiles s.rules s.available_capabilities registry prefix p.actions
        (start_rules s ids) done.last first done.applied in
    subst (λ x. All vetted x.rules) done.accepted.same
      (All-sort_by id_leb vetted (values done.last.rules) last)
