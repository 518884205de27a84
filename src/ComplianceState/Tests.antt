-- ===== src/ComplianceState/Tests.antt =====
-- domain/compliance_desired_state.py at concrete states.
use mathlib.Core.List.{Memᴰ}
use google_workspace_gmail_a.Common.{
  ℕ, String, Bool, true, false, none, some, List, [], ◌∷◌, ◌≡◌, refl, All, arith, ok, err,
  ambiguous_target, value_error,
}
use google_workspace_gmail_a.Schemas.Compliance.{
  inbound, any_of, ComplianceExpression, simple, advanced, predefined, subject, matches_regex,
  PersonaProfile, GeneratedRejectionNotice, ContentComplianceRuleDraft,
  ManagedContentComplianceRule, ContentComplianceState, validate_compliance_state, validate_managed,
}
use google_workspace_gmail_a.Schemas.Plan.{set_compliance_enabled, create_compliance, TaskPlan}
use google_workspace_gmail_a.Ownership.{
  OwnershipRegistry, ComplianceOwnershipRecord, require_owned_compliance_rule, find_compliance,
  is_visible, managed_compliance_rule_name,
}
use google_workspace_gmail_a.ComplianceState.Total.{calculate_compliance_desired_state_total}
use google_workspace_gmail_a.ComplianceState.{
  Progress, start_rules, collect_rules, calculate_compliance_desired_state, apply_actions,
  apply_compliance, require_unique_names, enable_compliance_rule, validate_expression_regex,
  validate_google_regex, create_compliance_rule, validate_expressions,
}
use google_workspace_gmail_a.DesiredState.{next_identifier}
use google_workspace_gmail_a.ComplianceState.Kept.{IsProtected}
use google_workspace_gmail_a.ComplianceState.Safety.{
  calculate_compliance_desired_state-keeps_protected,
}
use google_workspace_gmail_a.ComplianceState.Untargeted.{
  calculate_compliance_desired_state-keeps_untargeted,
}
use google_workspace_gmail_a.ComplianceState.Vetted.{
  IsVettedRule, calculate_compliance_desired_state-vets,
}
use google_workspace_gmail_a.DesiredState.Tests.{plan_of, prefix}

abbrev pub persona : PersonaProfile
persona = record {
  fictional_role = "clerk";
  traits = "patient" ∷ [];
  voice = "dry";
  motif = "forms";
  seed = 1;
  age = none;
  occupation = "clerk";
  location = "office";
  goals = [];
  personality = "calm";
  time_period = "now";
  current_mood = "calm";
  alignment = "neutral";
  delivery_style = "plain";
}

abbrev pub notice : GeneratedRejectionNotice
notice = record {
  text = "Not accepted.";
  policy_category = "content";
  policy_id = "P-1";
  persona = persona;
  used_fallback = true;
}

abbrev pub draft_of : List ComplianceExpression → Bool → Bool → ContentComplianceRuleDraft
draft_of expressions on from_parent = record {
  target_ou = record { path = "/"; organization_id = none };
  directions = inbound ∷ [];
  combiner = any_of;
  expressions = expressions;
  rejection_notice = notice;
  address_list_condition = none;
  envelope_filters = [];
  enabled = on;
  inherited = from_parent;
}

abbrev rule_of : ℕ → String → Bool → Bool → ManagedContentComplianceRule
rule_of id name on from_parent = record {
  draft = draft_of (simple "word" ∷ []) on from_parent;
  ownership_id = id;
  display_name = name;
}

abbrev parent_rule : ManagedContentComplianceRule
parent_rule = rule_of 1 "[M] parent" true true

abbrev own_rule : ManagedContentComplianceRule
own_rule = rule_of 2 "[M] own" true false

abbrev seen : ContentComplianceState
seen = record {
  rules = own_rule ∷ parent_rule ∷ [];
  unmanaged_rule_names = "other" ∷ [];
  available_capabilities = [];
}

abbrev own_record : ComplianceOwnershipRecord
own_record = record {
  ownership_id = 2;
  display_name = "[M] own";
  target_ou = "/";
  created_at = 0;
  rule_snapshot = none;
}

abbrev registry : OwnershipRegistry
registry = record { resources = []; address_lists = []; compliance_rules = own_record ∷ [] }

abbrev switch_off : TaskPlan
switch_off = plan_of (set_compliance_enabled (record { target_rule_id = 2; enabled = false }) ∷ [])

abbrev switched_off : ContentComplianceState
switched_off = record {
  rules = parent_rule ∷ rule_of 2 "[M] own" false false ∷ [];
  unmanaged_rule_names = "other" ∷ [];
  available_capabilities = [];
}

abbrev all_compile : String → Bool
all_compile pattern = true

runs : Unit {0}
unfolding calculate_compliance_desired_state apply_actions apply_compliance require_unique_names
    enable_compliance_rule require_owned_compliance_rule find_compliance is_visible
    validate_compliance_state validate_expression_regex validate_google_regex
runs = tt

seen-valid : validate_compliance_state seen ≡ ok seen
unfolding runs
seen-valid = refl

switch_off-runs :
    calculate_compliance_desired_state all_compile seen switch_off registry [] prefix
    ≡ ok switched_off
unfolding runs
switch_off-runs = refl

-- An inherited rule is not switched.
inherited_stays :
    calculate_compliance_desired_state all_compile seen
      (plan_of (set_compliance_enabled (record { target_rule_id = 1; enabled = false }) ∷ []))
      (record registry {
        compliance_rules =
            record {
              ownership_id = 1;
              display_name = "[M] parent";
              target_ou = "/";
              created_at = 0;
              rule_snapshot = none;
            }
            ∷ [];
      })
      []
      prefix
    ≡ err ambiguous_target
unfolding runs
inherited_stays = refl

abbrev pattern : ComplianceExpression
pattern = advanced (record {
  location = subject;
  match_type = matches_regex;
  value = some "(";
  regex_description = none;
  minimum_match_count = 1;
})

not_compiled : validate_expression_regex (λ p. false) pattern ≡ err value_error
unfolding runs
not_compiled = refl

keeps_protected_example : Memᴰ parent_rule switched_off.rules
keeps_protected_example =
    calculate_compliance_desired_state-keeps_protected all_compile seen switch_off registry []
      prefix switched_off parent_rule seen-valid (Memᴰ.tail (Memᴰ.head refl))
      (IsProtected.inherited_rule refl) (tt, tt) switch_off-runs

-- A rule with a pattern and a detector is created where the detector's capability was observed.
abbrev detector : ComplianceExpression
detector = predefined (record {
  detector = "card numbers";
  minimum_match_count = 1;
  confidence = none;
  required_edition_capability = "dlp";
})

abbrev equipped : ContentComplianceState
equipped = record seen { available_capabilities = "dlp" ∷ [] }

abbrev create : TaskPlan
create =
    plan_of
      (create_compliance (record { rule = draft_of (pattern ∷ detector ∷ []) true false }) ∷ [])

abbrev with_created : ContentComplianceState
with_created = record equipped {
  rules =
      parent_rule
      ∷ own_rule
      ∷ record {
        draft = draft_of (pattern ∷ detector ∷ []) true false;
        ownership_id = 7;
        display_name = managed_compliance_rule_name prefix 7;
      }
      ∷ [];
}

create-runs :
    calculate_compliance_desired_state all_compile equipped create registry (7 ∷ []) prefix
    ≡ ok with_created
unfolding runs create_compliance_rule validate_managed next_identifier validate_expressions
    managed_compliance_rule_name
create-runs = refl

-- Without the capability the rule is refused.
create-refused :
    calculate_compliance_desired_state all_compile seen create registry (7 ∷ []) prefix
    ≡ err ambiguous_target
unfolding runs create_compliance_rule validate_managed next_identifier validate_expressions
    managed_compliance_rule_name
create-refused = refl

vets_example :
    All (IsVettedRule all_compile equipped.rules equipped.available_capabilities) with_created.rules
vets_example =
    calculate_compliance_desired_state-vets all_compile equipped create registry (7 ∷ []) prefix
      with_created create-runs

-- Of two rules that are owned, one is switched.
abbrev third_rule : ManagedContentComplianceRule
third_rule = rule_of 3 "[M] third" true false

abbrev two_owned : ContentComplianceState
two_owned = record seen { rules = own_rule ∷ third_rule ∷ [] }

abbrev both_owned : OwnershipRegistry
both_owned = record registry {
  compliance_rules =
      own_record ∷ record own_record { ownership_id = 3; display_name = "[M] third" } ∷ [];
}

abbrev one_switched : ContentComplianceState
one_switched = record seen { rules = rule_of 2 "[M] own" false false ∷ third_rule ∷ [] }

two_owned-valid : validate_compliance_state two_owned ≡ ok two_owned
unfolding runs
two_owned-valid = refl

one-runs :
    calculate_compliance_desired_state all_compile two_owned switch_off both_owned [] prefix
    ≡ ok one_switched
unfolding runs
one-runs = refl

keeps_untargeted_example : Memᴰ third_rule one_switched.rules
keeps_untargeted_example =
    calculate_compliance_desired_state-keeps_untargeted all_compile two_owned switch_off both_owned
      [] prefix one_switched third_rule two_owned-valid (Memᴰ.tail (Memᴰ.head refl))
      (λ e. omega (arith, e), tt) (tt, tt) one-runs

abbrev after : Progress
after = record {
  rules = (2, rule_of 2 "[M] own" false false) ∷ (1, parent_rule) ∷ [];
  identifiers = [];
}

applied :
    apply_actions all_compile registry prefix [] switch_off.actions (start_rules seen []) ≡ ok after
unfolding runs
applied = refl

unique : require_unique_names after.rules seen.unmanaged_rule_names ≡ ok tt
unfolding runs
unique = refl

compliance_total_example :
    calculate_compliance_desired_state all_compile seen switch_off registry [] prefix
    ≡ ok (collect_rules seen after.rules)
compliance_total_example =
    calculate_compliance_desired_state_total all_compile seen switch_off registry [] prefix after
      (tt, tt) applied unique
