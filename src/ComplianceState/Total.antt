-- ===== src/ComplianceState/Total.antt =====
-- domain/compliance_desired_state.py: the validator that closes the calculation.
use mathlib.Core.List.{append-nil}
use google_workspace_gmail_a.Common.{
  ℕ, String, Bool, false, not, ◌||◌, List, [], ◌∷◌, ◌++◌, map, ◌≡◌, refl, sym, ap, ◌∙◌, subst,
  lookup, contains, values, insert, erase, index_onto-IsDict, index_onto-IsKeyed, IsDict, IsKeyed,
  insert-IsDict, erase-IsDict, insert-IsKeyed, erase-IsKeyed, lookup-IsKeyed, All, ok, value_error,
  ambiguous_target, raise_if, raise_if-eq-ok, or_raise-eq-ok, >>=-eq-ok, >>-eq-ok, ok-injective,
  repeats_by_iff, ◌==◌, ◌=s=◌, =s=_symmetric, arith, Distinct, has_duplicates, leb_text, sort_by,
  DistinctBy-sort_by, mem_by-sort_by, mem_text,
}
use google_workspace_gmail_a.Schemas.State.{has_duplicate_ids}
use google_workspace_gmail_a.Schemas.Compliance.{
  ManagedContentComplianceRule, ContentComplianceState, validate_compliance_state, validate_managed,
}
use google_workspace_gmail_a.Schemas.Plan.{
  Action, create_compliance, update_compliance, remove_compliance, set_compliance_enabled,
  CreateContentComplianceRule, UpdateContentComplianceRule, RemoveContentComplianceRule,
  SetContentComplianceRuleEnabled, TaskPlan, validate_compliance_update,
}
use google_workspace_gmail_a.Ownership.{OwnershipRegistry, require_owned_compliance_rule}
use google_workspace_gmail_a.DesiredState.{next_identifier}
use google_workspace_gmail_a.DesiredState.WellFormed.{sorted-DistinctBy}
use google_workspace_gmail_a.ComplianceState.{
  Rules, Progress, start_rules, collect_rules, apply_actions, apply_compliance,
  require_unique_names, calculate_compliance_desired_state, id_leb, validate_expressions,
  create_compliance_rule, update_compliance_rule, remove_compliance_rule, enable_compliance_rule,
  managed_of, require_compliance_rule, same_ou,
}
use google_workspace_gmail_a.ComplianceState.Kept.{IsIdentified}
use google_workspace_gmail_a.ComplianceState.Actions.{identified, validate_managed-id}

abbrev id_of : ManagedContentComplianceRule → ℕ
id_of r = r.ownership_id

abbrev name_of : ManagedContentComplianceRule → String
name_of r = r.display_name

-- Every rule stands once, under its own ID.
abbrev IsTable : Rules → Type 0
IsTable rules = IsDict rules × IsKeyed id_of rules

IsTable-insert :
    (id : ℕ) (r : ManagedContentComplianceRule) (rules : Rules)
    → r.ownership_id ≡ id
    → IsTable rules
    → IsTable (insert id r rules)
IsTable-insert id r rules e h =
    (insert-IsDict id r rules h.0, insert-IsKeyed id_of id r rules e h.1)

IsTable-erase : (id : ℕ) (rules : Rules) → IsTable rules → IsTable (erase id rules)
IsTable-erase id rules h = (erase-IsDict id rules h.0, erase-IsKeyed id_of id rules h.1)

module _ (compiles : String → Bool) (registry : OwnershipRegistry) (prefix : String)
    (available : List String) where
  create-IsTable :
      (a : CreateContentComplianceRule) (w w' : Progress)
      → IsTable w.rules
      → create_compliance_rule compiles a w prefix available ≡ ok w'
      → IsTable w'.rules
  unfolding create_compliance_rule
  create-IsTable a w w' h e =
      let (next, _, e1) = >>=-eq-ok (next_identifier w.identifiers) _ e in
      let (_, _, e2) = >>-eq-ok (raise_if (contains next.0 w.rules) value_error) _ e1 in
      let (rule, made, e3) = >>=-eq-ok (validate_managed (managed_of prefix a.rule next.0)) _ e2 in
      let (_, _, e4) =
        >>-eq-ok (validate_expressions compiles rule.draft.expressions available) _ e3 in
      subst (λ x. IsTable x.rules) (ok-injective e4)
        (IsTable-insert next.0 rule w.rules (validate_managed-id _ rule made) h)

  update-IsTable :
      (a : UpdateContentComplianceRule) (w w' : Progress)
      → validate_compliance_update a ≡ ok a
      → IsTable w.rules
      → update_compliance_rule compiles registry prefix available a w ≡ ok w'
      → IsTable w'.rules
  unfolding update_compliance_rule
  update-IsTable a w w' valid h e =
      let (current, found, e1) = >>=-eq-ok (require_compliance_rule a.target_rule_id w.rules) _ e in
      let (_, _, e2) = >>-eq-ok (require_owned_compliance_rule current registry prefix) _ e1 in
      let (_, _, e3) = >>-eq-ok (raise_if current.draft.inherited ambiguous_target) _ e2 in
      let (_, _, e4) =
        >>-eq-ok
          (raise_if (not (same_ou a.rule.draft.target_ou current.draft.target_ou)) ambiguous_target)
          _ e3 in
      let (_, _, e5) =
        >>-eq-ok (validate_expressions compiles a.rule.draft.expressions available) _ e4 in
      let at = or_raise-eq-ok (lookup a.target_rule_id w.rules) ambiguous_target found in
      let key = lookup-IsKeyed id_of a.target_rule_id current w.rules h.1 at in
      subst (λ x. IsTable x.rules) (ok-injective e5)
        (IsTable-insert current.ownership_id _ w.rules (identified a valid ∙ sym key) h)

  remove-IsTable :
      (a : RemoveContentComplianceRule) (w w' : Progress)
      → IsTable w.rules
      → remove_compliance_rule compiles registry prefix available a w ≡ ok w'
      → IsTable w'.rules
  unfolding remove_compliance_rule
  remove-IsTable a w w' h e =
      let (current, _, e1) = >>=-eq-ok (require_compliance_rule a.target_rule_id w.rules) _ e in
      let (_, _, e2) = >>-eq-ok (require_owned_compliance_rule current registry prefix) _ e1 in
      let (_, _, e3) = >>-eq-ok (raise_if current.draft.inherited ambiguous_target) _ e2 in
      subst (λ x. IsTable x.rules) (ok-injective e3) (IsTable-erase current.ownership_id w.rules h)

  enable-IsTable :
      (a : SetContentComplianceRuleEnabled) (w w' : Progress)
      → IsTable w.rules
      → enable_compliance_rule compiles registry prefix available a w ≡ ok w'
      → IsTable w'.rules
  unfolding enable_compliance_rule
  enable-IsTable a w w' h e =
      let (current, _, e1) = >>=-eq-ok (require_compliance_rule a.target_rule_id w.rules) _ e in
      let (_, _, e2) = >>-eq-ok (require_owned_compliance_rule current registry prefix) _ e1 in
      let (_, _, e3) = >>-eq-ok (raise_if current.draft.inherited ambiguous_target) _ e2 in
      subst (λ x. IsTable x.rules) (ok-injective e3)
        (IsTable-insert current.ownership_id _ w.rules refl h)

  same : (w w' : Progress) → IsTable w.rules → w ≡ w' → IsTable w'.rules
  same w w' h e = subst (λ x. IsTable x.rules) e h

  apply_compliance-IsTable :
      (a : Action) (w w' : Progress)
      → IsIdentified a
      → IsTable w.rules
      → apply_compliance compiles registry prefix available a w ≡ ok w'
      → IsTable w'.rules
  unfolding apply_compliance
  apply_compliance-IsTable (create_compliance a) w w' i h e = create-IsTable a w w' h e
  apply_compliance-IsTable (update_compliance a) w w' i h e = update-IsTable a w w' i h e
  apply_compliance-IsTable (remove_compliance a) w w' i h e = remove-IsTable a w w' h e
  apply_compliance-IsTable (set_compliance_enabled a) w w' i h e = enable-IsTable a w w' h e
  apply_compliance-IsTable (Action.add_entries a) w w' i h e = same w w' h (ok-injective e)
  apply_compliance-IsTable (Action.remove_entries a) w w' i h e = same w w' h (ok-injective e)
  apply_compliance-IsTable (Action.set_notice a) w w' i h e = same w w' h (ok-injective e)
  apply_compliance-IsTable (Action.create_rule a) w w' i h e = same w w' h (ok-injective e)
  apply_compliance-IsTable (Action.update_rule a) w w' i h e = same w w' h (ok-injective e)
  apply_compliance-IsTable (Action.remove_rule a) w w' i h e = same w w' h (ok-injective e)
  apply_compliance-IsTable (Action.set_enabled a) w w' i h e = same w w' h (ok-injective e)
  apply_compliance-IsTable Action.list_rules w w' i h e = same w w' h (ok-injective e)
  apply_compliance-IsTable Action.list_compliance w w' i h e = same w w' h (ok-injective e)

  apply_actions-IsTable :
      (actions : List Action) (w w' : Progress)
      → All IsIdentified actions
      → IsTable w.rules
      → apply_actions compiles registry prefix available actions w ≡ ok w'
      → IsTable w'.rules
  unfolding apply_actions
  apply_actions-IsTable [] w w' i h e = same w w' h (ok-injective e)
  apply_actions-IsTable (a ∷ actions) w w' i h e =
      let (next, done, rest) =
        >>=-eq-ok (apply_compliance compiles registry prefix available a w) _ e in
      apply_actions-IsTable actions next w' i.1 (apply_compliance-IsTable a w next i.0 h done) rest

map_self : (xs : List String) → map (λ x. x) xs ≡ xs
map_self [] = refl
map_self (x ∷ xs) = ap (λ ys. x ∷ ys) (map_self xs)

mem_text-append :
    (k : String) (xs ys : List String) → mem_text k (xs ++ ys) ≡ (mem_text k xs || mem_text k ys)
mem_text-append k [] ys = refl
mem_text-append k (x ∷ xs) ys =
    ap (λ b. k =s= x || b) (mem_text-append k xs ys)
    ∙ assoc (k =s= x) (mem_text k xs) (mem_text k ys)
  where
    assoc : (a b c : Bool) → (a || (b || c)) ≡ ((a || b) || c)
    assoc a b c = ground arith

mem_text-sorted : (k : String) (xs : List String) → mem_text k (sort_by leb_text xs) ≡ mem_text k xs
mem_text-sorted k xs =
    ap (mem_text k)
      (sym (append-nil (map (λ x. x) (sort_by leb_text xs)) ∙ map_self (sort_by leb_text xs)))
    ∙ mem_by-sort_by ◌=s=◌ =s=_symmetric (λ x. x) leb_text [] k xs
    ∙ ap (mem_text k) (append-nil (map (λ x. x) xs) ∙ map_self xs)

sorted-Distinct : (xs : List String) → Distinct xs → Distinct (sort_by leb_text xs)
sorted-Distinct xs d =
    subst Distinct
      (append-nil (map (λ x. x) (sort_by leb_text xs)) ∙ map_self (sort_by leb_text xs))
      (DistinctBy-sort_by ◌=s=◌ =s=_symmetric (λ x. x) leb_text [] xs
        (subst Distinct (sym (append-nil (map (λ x. x) xs) ∙ map_self xs)) d))

-- Sorting the second part keeps the whole distinct.
append-Distinct : (xs ys : List String) → Distinct (xs ++ ys) → Distinct (xs ++ sort_by leb_text ys)
append-Distinct [] ys d = sorted-Distinct ys d
append-Distinct (x ∷ xs) ys d = (
  mem_text-append x xs (sort_by leb_text ys)
      ∙ ap (λ b. mem_text x xs || b) (mem_text-sorted x ys)
      ∙ sym (mem_text-append x xs ys)
      ∙ d.0,
  append-Distinct xs ys d.1,
)

-- Where the actions and the test of the names succeed, the calculation returns the collected
-- state: the validator of that state never refuses, if the updates of the plan are valid.
pub calculate_compliance_desired_state_total :
    (compiles : String → Bool) (s : ContentComplianceState) (p : TaskPlan)
    (registry : OwnershipRegistry) (ids : List ℕ) (prefix : String) (w : Progress)
    → All IsIdentified p.actions
    → apply_actions compiles registry prefix s.available_capabilities p.actions (start_rules s ids)
      ≡ ok w
    → require_unique_names w.rules s.unmanaged_rule_names ≡ ok tt
    → calculate_compliance_desired_state compiles s p registry ids prefix
      ≡ ok (collect_rules s w.rules)
unfolding calculate_compliance_desired_state require_unique_names validate_compliance_state
calculate_compliance_desired_state_total compiles s p registry ids prefix w identified applied
      unique =
    let table =
      apply_actions-IsTable compiles registry prefix s.available_capabilities p.actions
        (start_rules s ids) w identified
        (index_onto-IsDict id_of [] s.rules tt, index_onto-IsKeyed id_of [] s.rules tt) applied in
    let names_once : Distinct (map name_of (values w.rules) ++ s.unmanaged_rule_names) =
      (repeats_by_iff ◌=s=◌ (map name_of (values w.rules) ++ s.unmanaged_rule_names)).0
        (raise_if-eq-ok _ ambiguous_target unique) in
    let ids_ok : has_duplicate_ids (map id_of (sort_by id_leb (values w.rules))) ≡ false =
      (repeats_by_iff ◌==◌ (map id_of (sort_by id_leb (values w.rules)))).1
        (sorted-DistinctBy id_of id_leb w.rules table.0 table.1) in
    let names_ok : has_duplicates
          (map name_of (sort_by id_leb (values w.rules)) ++ sort_by leb_text s.unmanaged_rule_names)
        ≡ false =
      (repeats_by_iff ◌=s=◌ (
          map name_of (sort_by id_leb (values w.rules))
          ++ sort_by leb_text s.unmanaged_rule_names)).1
        (append-Distinct (map name_of (sort_by id_leb (values w.rules))) s.unmanaged_rule_names (
          DistinctBy-sort_by ◌=s=◌ =s=_symmetric name_of id_leb s.unmanaged_rule_names
            (values w.rules) names_once)) in
    rw (applied, unique, ids_ok, names_ok)
