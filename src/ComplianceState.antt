-- ===== src/ComplianceState.antt =====
-- domain/compliance_desired_state.py and domain/regex_validation.py: what a plan makes of the
-- observed content-compliance rules. Whether RE2 compiles a pattern is an argument.
mod Checked
pub mod Kept
pub mod Actions
pub mod Safety
pub mod Untargeted
pub mod Vetted
pub mod Total
pub mod Tests
use Prim.Native.String
use google_workspace_gmail_a.Common.{
  ℕ, String, Bool, true, false, not, ◌&&◌, ◌||◌, Option, none, some, List, [], ◌∷◌, ◌++◌, map, leb,
  leb_text, if◌then◌else◌, Dict, lookup, contains, insert, erase, values, index_by, sort_by,
  mem_text, has_duplicates, is_blank, same_notice, ◌=s=◌, Result, ok, err, value_error,
  ambiguous_target, raise_if, or_raise, ◌>>=◌, ◌>>◌,
}
use google_workspace_gmail_a.Schemas.Compliance.{
  ComplianceExpression, advanced, predefined, AdvancedContentMatch, is_regex_operator,
  OrganizationalUnitRef, ContentComplianceRuleDraft, ManagedContentComplianceRule, validate_managed,
  ContentComplianceState, validate_compliance_state,
}
use google_workspace_gmail_a.Schemas.Plan.{
  Action, create_compliance, update_compliance, remove_compliance, set_compliance_enabled,
  CreateContentComplianceRule, UpdateContentComplianceRule, RemoveContentComplianceRule,
  SetContentComplianceRuleEnabled, TaskPlan,
}
use google_workspace_gmail_a.Ownership.{OwnershipRegistry, require_owned_compliance_rule}
use google_workspace_gmail_a.Ownership.{managed_compliance_rule_name}
use google_workspace_gmail_a.DesiredState.{next_identifier}

abbrev pub Rules : Type 0
Rules = Dict ManagedContentComplianceRule

-- the dictionary and the iterator that the loop mutates
pub record Progress : Type 0 where
  pub rules : Rules
  pub identifiers : List ℕ

-- `action.rule.target_ou != current.target_ou`, negated
abbrev pub same_ou : OrganizationalUnitRef → OrganizationalUnitRef → Bool
same_ou a b = a.path =s= b.path && same_notice a.organization_id b.organization_id

-- `_require_rule`
abbrev pub require_compliance_rule : ℕ → Rules → Result ManagedContentComplianceRule
require_compliance_rule id rules = or_raise (lookup id rules) ambiguous_target

-- `_require_unique_names`
unfoldable pub require_unique_names : Rules → List String → Result (Unit {0})
require_unique_names rules unmanaged =
    raise_if (has_duplicates (map (λ r. r.display_name) (values rules) ++ unmanaged))
      ambiguous_target

-- the rule of a draft
abbrev pub managed_of : String → ContentComplianceRuleDraft → ℕ → ManagedContentComplianceRule
managed_of prefix draft id = record {
  draft = draft;
  ownership_id = id;
  display_name = managed_compliance_rule_name prefix id;
}

-- `getattr(expression, "required_edition_capability", None)`
abbrev pub required_capability : ComplianceExpression → Option String
required_capability (predefined p) = some p.required_edition_capability
required_capability _ = none

abbrev pub lacks_capability : Option String → List String → Bool
lacks_capability none available = false
lacks_capability (some required) available = not (mem_text required available)

module _ (compiles : String → Bool) where
  -- `validate_google_regex`
  unfoldable pub validate_google_regex : String → Result String
  validate_google_regex pattern = do
    raise_if (is_blank pattern || not (leb (String.count pattern) 10000)) value_error
    raise_if (not (compiles pattern)) value_error
    ok pattern

  abbrev pub validate_pattern : Option String → Result String
  validate_pattern none = err value_error
  validate_pattern (some pattern) = validate_google_regex pattern

  -- `validate_expression_regex`
  unfoldable pub validate_expression_regex : ComplianceExpression → Result ComplianceExpression
  unfolding validate_google_regex
  validate_expression_regex (advanced m) =
      if is_regex_operator m.match_type
      then validate_pattern m.value >> ok (advanced m)
      else ok (advanced m)
  validate_expression_regex e = ok e

  -- the loop of `_validate_rule`
  unfoldable pub validate_expressions : List ComplianceExpression → List String → Result (Unit {0})
  unfolding validate_expression_regex
  validate_expressions [] available = ok tt
  validate_expressions (e ∷ es) available = do
    validate_expression_regex e
    raise_if (lacks_capability (required_capability e) available) ambiguous_target
    validate_expressions es available

  -- `_create_rule`
  unfoldable pub create_compliance_rule :
      CreateContentComplianceRule → Progress → String → List String → Result Progress
  unfolding next_identifier validate_expressions
  create_compliance_rule a w prefix available = do
    (id, rest) ← next_identifier w.identifiers
    raise_if (contains id w.rules) value_error
    rule ← validate_managed (managed_of prefix a.rule id)
    validate_expressions rule.draft.expressions available
    ok (record { rules = insert id rule w.rules; identifiers = rest })

  module _ (registry : OwnershipRegistry) (prefix : String) (available : List String) where
    -- the branch on `UpdateContentComplianceRule`
    unfoldable pub update_compliance_rule : UpdateContentComplianceRule → Progress → Result Progress
    unfolding validate_expressions
    update_compliance_rule a w = do
      current ← require_compliance_rule a.target_rule_id w.rules
      require_owned_compliance_rule current registry prefix
      raise_if current.draft.inherited ambiguous_target
      raise_if (not (same_ou a.rule.draft.target_ou current.draft.target_ou)) ambiguous_target
      let replacement = record a.rule { display_name = current.display_name }
      validate_expressions replacement.draft.expressions available
      ok (record w { rules = insert current.ownership_id replacement w.rules })

    -- the branch on `RemoveContentComplianceRule`
    unfoldable pub remove_compliance_rule : RemoveContentComplianceRule → Progress → Result Progress
    remove_compliance_rule a w = do
      current ← require_compliance_rule a.target_rule_id w.rules
      require_owned_compliance_rule current registry prefix
      raise_if current.draft.inherited ambiguous_target
      ok (record w { rules = erase current.ownership_id w.rules })

    -- the branch on `SetContentComplianceRuleEnabled`
    unfoldable pub enable_compliance_rule :
        SetContentComplianceRuleEnabled → Progress → Result Progress
    enable_compliance_rule a w = do
      current ← require_compliance_rule a.target_rule_id w.rules
      require_owned_compliance_rule current registry prefix
      raise_if current.draft.inherited ambiguous_target
      let switched = record current { draft = record current.draft { enabled = a.enabled } }
      ok (record w { rules = insert current.ownership_id switched w.rules })

    -- The dispatch on the action's class. Other actions match no branch.
    unfoldable pub apply_compliance : Action → Progress → Result Progress
    unfolding create_compliance_rule update_compliance_rule remove_compliance_rule
        enable_compliance_rule
    apply_compliance (create_compliance a) w = create_compliance_rule a w prefix available
    apply_compliance (update_compliance a) w = update_compliance_rule a w
    apply_compliance (remove_compliance a) w = remove_compliance_rule a w
    apply_compliance (set_compliance_enabled a) w = enable_compliance_rule a w
    apply_compliance _ w = ok w

    -- `for action in plan.actions`
    unfoldable pub apply_actions : List Action → Progress → Result Progress
    unfolding apply_compliance
    apply_actions [] w = ok w
    apply_actions (a ∷ actions) w = do w' ← apply_compliance a w; apply_actions actions w'

abbrev pub id_leb : ManagedContentComplianceRule → ManagedContentComplianceRule → Bool
id_leb a b = leb a.ownership_id b.ownership_id

abbrev pub start_rules : ContentComplianceState → List ℕ → Progress
start_rules s ids = record { rules = index_by (λ r. r.ownership_id) s.rules; identifiers = ids }

abbrev pub collect_rules : ContentComplianceState → Rules → ContentComplianceState
collect_rules s rules = record {
  rules = sort_by id_leb (values rules);
  unmanaged_rule_names = sort_by leb_text s.unmanaged_rule_names;
  available_capabilities = s.available_capabilities;
}

-- `calculate_compliance_desired_state`
unfoldable pub calculate_compliance_desired_state :
    (String → Bool)
    → ContentComplianceState
    → TaskPlan
    → OwnershipRegistry
    → List ℕ
    → String
    → Result ContentComplianceState
unfolding apply_actions require_unique_names
calculate_compliance_desired_state compiles s p registry ids prefix = do
  w ← apply_actions compiles registry prefix s.available_capabilities p.actions (start_rules s ids)
  require_unique_names w.rules s.unmanaged_rule_names
  validate_compliance_state (collect_rules s w.rules)
