-- ===== src/Schemas/Plan.antt =====
-- schemas/plan.py: the typed actions of a plan, and what a plan must satisfy to be built.
use Prim.Native.String
use google_workspace_gmail_a.Common.{
  ℕ, String, Bool, true, false, not, ◌&&◌, ◌||◌, Option, none, some, List, [], ◌∷◌, map, leb, ◌==◌,
  if◌then◌else◌, Result, ok, err, value_error, raise_if, ◌>>=◌, ◌>>◌, has_duplicates, mem_text,
  is_empty, any, length, strip, is_blank,
}
use google_workspace_gmail_a.Schemas.Resources.{AddressEntry, validate_notice, is_within}
use google_workspace_gmail_a.Schemas.Compliance.{
  ContentComplianceRuleDraft, ManagedContentComplianceRule, is_malformed_path, has_traversal,
}

pub record AddBlockedEntries : Type 0 where
  pub rejection_notice : Option String
  pub entries : List AddressEntry
  pub target_rule_id : Option ℕ
  pub target_ou : String

pub record RemoveBlockedEntries : Type 0 where
  pub entries : List AddressEntry
  pub target_rule_id : ℕ

pub record SetRejectionNotice : Type 0 where
  pub target_rule_id : ℕ
  pub rejection_notice : String

pub record CreateBlockedSenderRule : Type 0 where
  pub rejection_notice : Option String
  pub entries : List AddressEntry
  pub target_ou : String
  pub bypass_entries : List AddressEntry
  pub enabled : Bool

pub record UpdateBlockedSenderRule : Type 0 where
  pub rejection_notice : Option String
  pub target_rule_id : ℕ
  pub entries : List AddressEntry
  pub bypass_entries : List AddressEntry
  pub enabled : Bool

pub record RemoveBlockedSenderRule : Type 0 where
  pub target_rule_id : ℕ
  pub remove_owned_address_list : Bool

pub record SetBlockedSenderRuleEnabled : Type 0 where
  pub target_rule_id : ℕ
  pub enabled : Bool

pub record CreateContentComplianceRule : Type 0 where
  pub rule : ContentComplianceRuleDraft

pub record UpdateContentComplianceRule : Type 0 where
  pub target_rule_id : ℕ
  pub rule : ManagedContentComplianceRule

pub record RemoveContentComplianceRule : Type 0 where
  pub target_rule_id : ℕ

pub record SetContentComplianceRuleEnabled : Type 0 where
  pub target_rule_id : ℕ
  pub enabled : Bool

pub data Action : Type 0 where
  add_entries : AddBlockedEntries → Action
  remove_entries : RemoveBlockedEntries → Action
  set_notice : SetRejectionNotice → Action
  create_rule : CreateBlockedSenderRule → Action
  update_rule : UpdateBlockedSenderRule → Action
  remove_rule : RemoveBlockedSenderRule → Action
  set_enabled : SetBlockedSenderRuleEnabled → Action
  list_rules : Action
  create_compliance : CreateContentComplianceRule → Action
  update_compliance : UpdateContentComplianceRule → Action
  remove_compliance : RemoveContentComplianceRule → Action
  set_compliance_enabled : SetContentComplianceRuleEnabled → Action
  list_compliance : Action

-- `_normalized_ou`
unfoldable pub normalized_ou : String → Result String
normalized_ou value =
    let normalized = strip value in
    if is_malformed_path normalized || has_traversal normalized
    then err value_error
    else ok normalized

abbrev normalized_values : List AddressEntry → List String
normalized_values = map (λ e. e.normalized_value)

-- `blocked & bypassed`
abbrev pub overlaps : List AddressEntry → List AddressEntry → Bool
overlaps blocked bypassed =
    any (λ e. mem_text e.normalized_value (normalized_values bypassed)) blocked

abbrev is_short : Option String → Bool
is_short none = true
is_short (some s) = leb (String.count s) 1000

-- `AddBlockedEntries`, built: the notice, then the target
unfoldable pub validate_add : AddBlockedEntries → Result AddBlockedEntries
unfolding validate_notice
validate_add a = do
  raise_if (not (is_short a.rejection_notice)) value_error
  notice ← validate_notice a.rejection_notice
  ou ← normalized_ou a.target_ou
  ok (record a { rejection_notice = notice; target_ou = ou })

-- `SetRejectionNotice.strip_notice`
unfoldable pub validate_set_notice : SetRejectionNotice → Result SetRejectionNotice
validate_set_notice a = do
  raise_if (not (is_within 1 1000 a.rejection_notice)) value_error
  let notice = strip a.rejection_notice
  raise_if (is_blank notice) value_error
  ok (record a { rejection_notice = notice })

-- `CreateBlockedSenderRule`, built
unfoldable pub validate_create : CreateBlockedSenderRule → Result CreateBlockedSenderRule
unfolding validate_notice
validate_create a = do
  raise_if (not (is_short a.rejection_notice)) value_error
  notice ← validate_notice a.rejection_notice
  ou ← normalized_ou a.target_ou
  raise_if (overlaps a.entries a.bypass_entries) value_error
  ok (record a { rejection_notice = notice; target_ou = ou })

-- `UpdateBlockedSenderRule`, built
unfoldable pub validate_update : UpdateBlockedSenderRule → Result UpdateBlockedSenderRule
unfolding validate_notice
validate_update a = do
  raise_if (not (is_short a.rejection_notice)) value_error
  notice ← validate_notice a.rejection_notice
  raise_if (overlaps a.entries a.bypass_entries) value_error
  ok (record a { rejection_notice = notice })

-- `UpdateContentComplianceRule.validate_identity`
unfoldable pub validate_compliance_update :
    UpdateContentComplianceRule → Result UpdateContentComplianceRule
validate_compliance_update a = do
  raise_if (not (a.rule.ownership_id == a.target_rule_id)) value_error
  raise_if a.rule.draft.inherited value_error
  ok a

pub data SchemaVersion : Type 0 where
  v1 v2 : SchemaVersion

pub data PlanStatus : Type 0 where
  plan clarification_needed unsupported : PlanStatus

pub record TaskPlan : Type 0 where
  pub schema_version : SchemaVersion
  pub status : PlanStatus
  pub actions : List Action
  pub clarification_question : Option String
  pub unsupported_reason : Option String

-- `isinstance(action, (ListBlockedSenderRules, ListContentComplianceRules))`
abbrev pub is_list_action : Action → Bool
is_list_action list_rules = true
is_list_action list_compliance = true
is_list_action _ = false

abbrev pub is_compliance_action : Action → Bool
is_compliance_action (create_compliance _) = true
is_compliance_action (update_compliance _) = true
is_compliance_action (remove_compliance _) = true
is_compliance_action (set_compliance_enabled _) = true
is_compliance_action list_compliance = true
is_compliance_action _ = false

-- `getattr(action, "entries", ())`, and whether there is such a field
abbrev pub entries_of : Action → Option (List AddressEntry)
entries_of (add_entries a) = some a.entries
entries_of (remove_entries a) = some a.entries
entries_of (create_rule a) = some a.entries
entries_of (update_rule a) = some a.entries
entries_of _ = none

abbrev pub validate_entries : Option (List AddressEntry) → Result (Unit {0})
validate_entries none = ok tt
validate_entries (some entries) = do
  raise_if (is_empty entries) value_error
  raise_if (has_duplicates (normalized_values entries)) value_error

-- the loop over the actions
validate_all_entries : List Action → Result (Unit {0})
validate_all_entries [] = ok tt
validate_all_entries (a ∷ actions) = do
  validate_entries (entries_of a)
  validate_all_entries actions

-- `bool(text)`
abbrev is_text : Option String → Bool
is_text none = false
is_text (some s) = not (is_blank s)

-- `text and text.strip()`
abbrev is_text_stripped : Option String → Bool
is_text_stripped none = false
is_text_stripped (some s) = not (is_blank s) && not (is_blank (strip s))

-- `_validate_status`
validate_status : PlanStatus → TaskPlan → Result (Unit {0})
validate_status plan p = do
  raise_if (is_empty p.actions) value_error
  raise_if (is_text p.clarification_question || is_text p.unsupported_reason) value_error
validate_status clarification_needed p = do
  raise_if (not (is_empty p.actions)) value_error
  raise_if (not (is_text_stripped p.clarification_question)) value_error
  raise_if (is_text p.unsupported_reason) value_error
validate_status unsupported p = do
  raise_if (not (is_empty p.actions)) value_error
  raise_if (not (is_text_stripped p.unsupported_reason)) value_error
  raise_if (is_text p.clarification_question) value_error

abbrev is_v2 : SchemaVersion → Bool
is_v2 v1 = false
is_v2 v2 = true

-- `TaskPlan.validate_status_and_entries`
unfoldable pub validate_plan : TaskPlan → Result TaskPlan
unfolding validate_status validate_all_entries
validate_plan p = do
  validate_status p.status p
  raise_if (any is_list_action p.actions && not (length p.actions == 1)) value_error
  raise_if (any is_compliance_action p.actions && not (is_v2 p.schema_version)) value_error
  validate_all_entries p.actions
  ok p
