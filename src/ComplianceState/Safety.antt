-- ===== src/ComplianceState/Safety.antt =====
-- domain/compliance_desired_state.py: what a calculated state keeps.
use mathlib.Core.List.{Memᴰ}
use google_workspace_gmail_a.Common.{
  ℕ, String, Bool, false, ◌||◌, List, [], ◌++◌, map, ◌≡◌, subst, values, index_by,
  index_onto-IsDict, index_onto-IsKeyed, lookup-index_by, values-Memᴰ, Memᴰ-sort_by, All, ok,
  value_error, raise_if, raise_if-eq-ok, >>=-eq-ok, >>-eq-ok, ok-injective, repeats_by_iff, ◌==◌,
  ◌=s=◌, arith, DistinctBy, Distinct, has_duplicates,
}
use google_workspace_gmail_a.Schemas.State.{has_duplicate_ids}
use google_workspace_gmail_a.Schemas.Compliance.{
  ManagedContentComplianceRule, ContentComplianceState, validate_compliance_state,
}
use google_workspace_gmail_a.Schemas.Plan.{TaskPlan}
use google_workspace_gmail_a.Ownership.{OwnershipRegistry}
use google_workspace_gmail_a.ComplianceState.{
  Progress, start_rules, collect_rules, apply_actions, require_unique_names,
  calculate_compliance_desired_state, id_leb,
}
use google_workspace_gmail_a.ComplianceState.Kept.{IsIdentified, Holds, IsProtected}
use google_workspace_gmail_a.ComplianceState.Actions.{apply_actions-Holds, identified}

abbrev id_of : ManagedContentComplianceRule → ℕ
id_of r = r.ownership_id

-- What the validator of a compliance state accepts, as it is.
pub record IsAccepted (s t : ContentComplianceState) : Type 0 where
  pub same : s ≡ t
  pub ids : DistinctBy ◌==◌ (map id_of s.rules)
  pub names : Distinct (map (λ r. r.display_name) s.rules ++ s.unmanaged_rule_names)

pub validate-IsAccepted :
    (s t : ContentComplianceState) → validate_compliance_state s ≡ ok t → IsAccepted s t
unfolding validate_compliance_state
validate-IsAccepted s t h =
    let ids = has_duplicate_ids (map id_of s.rules) in
    let names = has_duplicates (map (λ r. r.display_name) s.rules ++ s.unmanaged_rule_names) in
    let (_, tested, returned) = >>-eq-ok (raise_if (ids || names) value_error) _ h in
    let (no_ids, no_names) = both ids names (raise_if-eq-ok _ value_error tested) in
    record {
      same = ok-injective returned;
      ids = (repeats_by_iff ◌==◌ (map id_of s.rules)).0 no_ids;
      names =
          (repeats_by_iff ◌=s=◌ (map (λ r. r.display_name) s.rules ++ s.unmanaged_rule_names)).0
            no_names;
    }
  where
    both : (a b : Bool) → (a || b) ≡ false → (a ≡ false) × (b ≡ false)
    both a b e = ground arith

-- The parts of a calculation that succeeds.
pub record IsCalculated (compiles : String → Bool) (s : ContentComplianceState) (p : TaskPlan)
    (registry : OwnershipRegistry) (ids : List ℕ) (prefix : String) (d : ContentComplianceState)
    : Type 0 where
  pub last : Progress
  pub applied :
      apply_actions compiles registry prefix s.available_capabilities p.actions (start_rules s ids)
      ≡ ok last
  pub accepted : IsAccepted (collect_rules s last.rules) d

module _ (compiles : String → Bool) (s : ContentComplianceState) (p : TaskPlan)
    (registry : OwnershipRegistry) (ids : List ℕ) (prefix : String)
    (d : ContentComplianceState) where
  pub IsCalculated-of_ok :
      calculate_compliance_desired_state compiles s p registry ids prefix ≡ ok d
      → IsCalculated compiles s p registry ids prefix d
  unfolding calculate_compliance_desired_state
  IsCalculated-of_ok h =
      let (last, applied, e1) =
        >>=-eq-ok
          (apply_actions compiles registry prefix s.available_capabilities p.actions
            (start_rules s ids))
          _ h in
      let (_, _, e2) = >>-eq-ok (require_unique_names last.rules s.unmanaged_rule_names) _ e1 in
      record { last = last; applied = applied; accepted = validate-IsAccepted _ d e2 }

  -- A rule of a valid observed state that is inherited, or for which ownership is not
  -- established, stands unchanged in the calculated state, whatever the injected identifiers, if
  -- the updates of the plan are valid and the calculation succeeds.
  pub calculate_compliance_desired_state-keeps_protected :
      (r : ManagedContentComplianceRule)
      → validate_compliance_state s ≡ ok s
      → Memᴰ r s.rules
      → IsProtected registry prefix r
      → All IsIdentified p.actions
      → calculate_compliance_desired_state compiles s p registry ids prefix ≡ ok d
      → Memᴰ r d.rules
  calculate_compliance_desired_state-keeps_protected r valid m protected identified h =
      let done = IsCalculated-of_ok h in
      let first : Holds r (index_by id_of s.rules) = record {
        dict = index_onto-IsDict id_of [] s.rules tt;
        keyed = index_onto-IsKeyed id_of [] s.rules tt;
        held = lookup-index_by id_of r s.rules (validate-IsAccepted s s valid).ids m;
      } in
      let kept =
        apply_actions-Holds compiles registry prefix s.available_capabilities r protected p.actions
          (start_rules s ids) done.last identified first done.applied in
      subst (λ x. Memᴰ r x.rules) done.accepted.same
        (Memᴰ-sort_by id_leb r (values done.last.rules)
          (values-Memᴰ r.ownership_id r done.last.rules kept.held))
