-- ===== src/DesiredState/Tests.antt =====
-- Runs of domain/desired_state.py, and the theorems at concrete states.
use mathlib.Core.List.{Memᴰ}
use google_workspace_gmail_a.Common.{
  ℕ, String, Bool, true, false, not, ◌&&◌, ◌||◌, none, some, List, [], ◌∷◌, ◌≡◌, refl, All, ok, err,
  ambiguous_target, ownership_not_established, value_error, lookup, Distinct, mem_text,
}
use google_workspace_gmail_a.Schemas.Resources.{
  domain, AddressEntry, ManagedAddressList, ManagedBlockedSenderRule, validate_address_list,
  validate_rule,
}
use google_workspace_gmail_a.Schemas.State.{BlockedSenderState, DesiredStateResult, validate_state}
use google_workspace_gmail_a.Schemas.Plan.{
  Action, create_rule, set_enabled, v2, plan, TaskPlan, AddBlockedEntries, RemoveBlockedEntries,
}
use google_workspace_gmail_a.Ownership.{
  OwnershipRegistry, OwnershipRecord, require_owned_rule, require_owned_address_list,
}
use google_workspace_gmail_a.DesiredState.{
  calculate_desired_state, apply_all, start, collect, requested_ou, apply_add, apply_remove_entries,
  require_unique_display_names, apply_set_enabled, require_rule, apply_create, apply_update,
  replace_bypass, create_bypass, require_rule_list, owned_bypass_lists, resolve_add_target,
  sorted_entries, delete_lists,
}
use google_workspace_gmail_a.DesiredState as Ds
use google_workspace_gmail_a.DesiredState.WorkingSets.{Working}
use google_workspace_gmail_a.DesiredState.Safety.{
  calculate_desired_state-keeps_unowned_rule, calculate_desired_state-keeps_unowned_list,
  calculate_desired_state-target_ou,
}
use google_workspace_gmail_a.DesiredState.WellFormed.{
  IsWellFormed, calculate_desired_state-IsWellFormed, calculate_desired_state_total,
}
use google_workspace_gmail_a.DesiredState.Moves.{IsWorking}
use google_workspace_gmail_a.DesiredState.Effects.{
  OnlyList, apply_add_effect, apply_add-Distinct, apply_remove_entries_effect,
}
use google_workspace_gmail_a.DesiredState.Entries.{values_of}

abbrev pub prefix : String
prefix = "[M]"

abbrev pub entry : String → AddressEntry
entry v = record { kind = domain; value = v; normalized_value = v }

abbrev pub rule_of : ℕ → String → String → List String → Bool → ManagedBlockedSenderRule
rule_of id name list bypass_lists on = record {
  ownership_id = id;
  display_name = name;
  target_ou = "/";
  address_list_names = list ∷ [];
  bypass_address_list_names = bypass_lists;
  rejection_notice = none;
  enabled = on;
  inherited = false;
}

abbrev pub list_of : ℕ → String → List AddressEntry → ManagedAddressList
list_of id name entries = record { ownership_id = id; display_name = name; entries = entries }

abbrev pub rule1 : ManagedBlockedSenderRule
rule1 = rule_of 1 "[M] rule one" "[M] list one" [] true

abbrev pub rule2 : ManagedBlockedSenderRule
rule2 = rule_of 2 "[M] rule two" "[M] list two" [] true

abbrev pub list1 : ManagedAddressList
list1 = list_of 1 "[M] list one" (entry "a.example" ∷ entry "c.example" ∷ [])

abbrev pub list2 : ManagedAddressList
list2 = list_of 2 "[M] list two" []

abbrev pub observed : BlockedSenderState
observed = record {
  target_ou = "/";
  rules = rule2 ∷ rule1 ∷ [];
  address_lists = list1 ∷ list2 ∷ [];
  unmanaged_rule_names = "other" ∷ [];
}

abbrev record1 : OwnershipRecord
record1 = record {
  ownership_id = 1;
  rule_display_name = "[M] rule one";
  address_list_display_name = "[M] list one";
  target_ou = "/";
  created_at = 0;
  rule_snapshot = none;
  address_list_snapshot = none;
}

-- Only the first rule and its list are owned.
abbrev pub registry : OwnershipRegistry
registry = record { resources = record1 ∷ []; address_lists = []; compliance_rules = [] }

abbrev pub plan_of : List Action → TaskPlan
plan_of actions = record {
  schema_version = v2;
  status = plan;
  actions = actions;
  clarification_question = none;
  unsupported_reason = none;
}

abbrev pub switch_off : TaskPlan
switch_off = plan_of (set_enabled (record { target_rule_id = 1; enabled = false }) ∷ [])

abbrev pub switched_off : DesiredStateResult
switched_off = record {
  desired_state = record {
    target_ou = "/";
    rules = rule_of 1 "[M] rule one" "[M] list one" [] false ∷ rule2 ∷ [];
    address_lists = list1 ∷ list2 ∷ [];
    unmanaged_rule_names = "other" ∷ [];
  };
  notice_affected_entry_count = 0;
}

runs : Unit {0}
unfolding calculate_desired_state validate_state require_owned_rule require_owned_address_list
    require_unique_display_names apply_add apply_remove_entries apply_set_enabled require_rule
    apply_create Ds.create_rule apply_update replace_bypass create_bypass require_rule_list
    owned_bypass_lists resolve_add_target sorted_entries delete_lists validate_address_list
    validate_rule
runs = tt

observed-valid : validate_state observed ≡ ok observed
unfolding runs
observed-valid = refl

pub switch_off-runs :
    calculate_desired_state observed switch_off registry [] prefix ≡ ok switched_off
unfolding runs
switch_off-runs = refl

not_owned_rule : require_owned_rule rule2 registry prefix ≡ err ownership_not_established
unfolding runs
not_owned_rule = refl

not_owned_list : require_owned_address_list list2 registry prefix ≡ err ownership_not_established
unfolding runs
not_owned_list = refl

-- An action on the rule that is not owned is refused, and so is one on a rule that is not there.
refusals :
    (calculate_desired_state observed
        (plan_of (set_enabled (record { target_rule_id = 2; enabled = false }) ∷ []))
        registry
        []
        prefix
      ≡ err ownership_not_established)
    × (calculate_desired_state observed
          (plan_of (set_enabled (record { target_rule_id = 3; enabled = false }) ∷ []))
          registry
          []
          prefix
        ≡ err ambiguous_target)
    × (calculate_desired_state observed
          (plan_of (
            create_rule (record {
              rejection_notice = none;
              entries = entry "b.example" ∷ [];
              target_ou = "/";
              bypass_entries = [];
              enabled = true;
            })
            ∷ []))
          registry
          []
          prefix
        ≡ err value_error)
unfolding runs
refusals = (refl, refl, refl)

keeps_unowned_rule_example : Memᴰ rule2 switched_off.desired_state.rules
keeps_unowned_rule_example =
    calculate_desired_state-keeps_unowned_rule observed switch_off registry [] prefix switched_off
      rule2 observed-valid switch_off-runs (Memᴰ.head refl) not_owned_rule

none_injected : ¬ (Memᴰ {A = ℕ} 2 [])
none_injected m = elim m [ ]

keeps_unowned_list_example : Memᴰ list2 switched_off.desired_state.address_lists
keeps_unowned_list_example =
    calculate_desired_state-keeps_unowned_list observed switch_off registry [] prefix switched_off
      list2 observed-valid switch_off-runs (Memᴰ.tail (Memᴰ.head refl)) not_owned_list none_injected

target_ou_example :
    All (λ a. requested_ou observed.target_ou a ≡ observed.target_ou) switch_off.actions
target_ou_example =
    calculate_desired_state-target_ou observed switch_off registry [] prefix switched_off
      switch_off-runs

IsWellFormed_example : IsWellFormed observed switched_off.desired_state
IsWellFormed_example =
    calculate_desired_state-IsWellFormed observed switch_off registry [] prefix switched_off
      switch_off-runs

abbrev final : Working
final = record {
  rules = (2, rule2) ∷ (1, rule_of 1 "[M] rule one" "[M] list one" [] false) ∷ [];
  address_lists = (1, list1) ∷ (2, list2) ∷ [];
  identifiers = [];
}

final-runs :
    apply_all registry prefix observed.target_ou switch_off.actions (start observed []) 0
    ≡ ok (final, 0)
unfolding runs
final-runs = refl

final-names :
    require_unique_display_names final.rules final.address_lists observed.unmanaged_rule_names
    ≡ ok tt
unfolding runs
final-names = refl

total_example :
    calculate_desired_state observed switch_off registry [] prefix
    ≡ ok (record { desired_state = collect observed final; notice_affected_entry_count = 0 })
total_example =
    calculate_desired_state_total observed switch_off registry [] prefix final 0 final-runs
      final-names

abbrev addition : AddBlockedEntries
addition = record {
  rejection_notice = none;
  entries = entry "b.example" ∷ entry "a.example" ∷ [];
  target_rule_id = some 1;
  target_ou = "/";
}

abbrev begun : Working
begun = record {
  rules = (2, rule2) ∷ (1, rule1) ∷ [];
  address_lists = (1, list1) ∷ (2, list2) ∷ [];
  identifiers = [];
}

begun-IsWorking : IsWorking begun
begun-IsWorking = record {
  rules_dict = (refl, (refl, tt));
  rules_keyed = (refl, (refl, tt));
  lists_dict = (refl, (refl, tt));
  lists_keyed = (refl, (refl, tt));
}

abbrev removal : RemoveBlockedEntries
removal = record { entries = entry "a.example" ∷ []; target_rule_id = 1 }

abbrev added : Working
added = record begun {
  address_lists =
      (1, list_of 1 "[M] list one" (entry "a.example" ∷ entry "b.example" ∷ entry "c.example" ∷ []))
      ∷ (2, list2)
      ∷ [];
}

abbrev removed : Working
removed = record begun {
  address_lists = (1, list_of 1 "[M] list one" (entry "c.example" ∷ [])) ∷ (2, list2) ∷ [];
}

addition-runs : apply_add registry prefix addition begun ≡ ok added
unfolding runs
addition-runs = refl

removal-runs : apply_remove_entries registry prefix removal begun ≡ ok removed
unfolding runs
removal-runs = refl

add_effect_example :
    (before : ManagedAddressList) × (after : ManagedAddressList) × OnlyList 1 begun added before
      after
    × ((v : String)
        → mem_text v (values_of after.entries)
          ≡ (mem_text v (values_of before.entries) || mem_text v (values_of addition.entries)))
add_effect_example =
    apply_add_effect registry prefix addition 1 begun added begun-IsWorking refl refl addition-runs

list1-Distinct : Distinct (values_of list1.entries)
list1-Distinct = (refl, (refl, tt))

addition-Distinct : Distinct (values_of addition.entries)
addition-Distinct = (refl, (refl, tt))

add-Distinct_example :
    (after : ManagedAddressList) × (lookup 1 added.address_lists ≡ some after)
    × Distinct (values_of after.entries)
add-Distinct_example =
    apply_add-Distinct registry prefix addition 1 begun added list1 begun-IsWorking refl refl refl
      list1-Distinct addition-Distinct addition-runs

remove_entries_effect_example :
    (before : ManagedAddressList) × (after : ManagedAddressList) × OnlyList 1 begun removed before
      after
    × ((v : String)
        → mem_text v (values_of after.entries)
          ≡ (mem_text v (values_of before.entries) && not (mem_text v (values_of removal.entries))))
remove_entries_effect_example =
    apply_remove_entries_effect registry prefix removal begun removed begun-IsWorking removal-runs
