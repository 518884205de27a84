-- ===== src/Impact/Tests.antt =====
-- application/impact_service.py at concrete change sets.
use google_workspace_gmail_a.Common.{true, [], ◌∷◌, ◌≡◌, ◌↔◌, refl}
use google_workspace_gmail_a.Schemas.State.{ChangeSet}
use google_workspace_gmail_a.Schemas.Operations.{destructive}
use google_workspace_gmail_a.Impact.{affected_entry_count, assess_impact}
use google_workspace_gmail_a.Impact.Counted.{IsSameValues, affected_entry_count-IsSameValues}
use google_workspace_gmail_a.DesiredState.Tests.{observed, entry, list_of, rule1}

-- One entry leaves the first list, two enter the second, and rule one is removed.
abbrev changes : ChangeSet
changes = record {
  before_state = observed;
  expected_after = record observed {
    address_lists =
        list_of 1 "[M] list one" (entry "a.example" ∷ [])
        ∷ list_of 2 "[M] list two" (entry "x.example" ∷ entry "y.example" ∷ [])
        ∷ [];
  };
  rules_to_create = [];
  rules_to_update = [];
  rules_to_remove = rule1 ∷ [];
  address_lists_to_create = [];
  address_lists_to_update = [];
  address_lists_to_remove = [];
}

three : affected_entry_count changes ≡ 3
unfolding affected_entry_count
three = refl

assessed :
    assess_impact changes
      (record { desired_state = observed; notice_affected_entry_count = 1 })
      true
    ≡ record {
      level = destructive;
      rules_created = 0;
      rules_updated = 0;
      rules_removed = 1;
      address_lists_created = 0;
      address_lists_updated = 0;
      address_lists_removed = 0;
      affected_entries = 3;
      root_ou_confirmed = true;
      ownership_verified = true;
    }
unfolding assess_impact affected_entry_count
assessed = refl

IsSameValues_example : (affected_entry_count changes ≡ 0) ↔ IsSameValues changes
IsSameValues_example = affected_entry_count-IsSameValues changes
