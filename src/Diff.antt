-- ===== src/Diff.antt =====
-- domain/diff.py: the exact resources to create, to update and to remove.
pub mod Patch
pub mod Exact
pub mod Changes
pub mod Tests
use google_workspace_gmail_a.Common.{ℕ, Bool, not, List, [], ◌∷◌, index_by, any, is_empty}
use google_workspace_gmail_a.Comparison.{ids_only_in, ids_changed, gather}
use google_workspace_gmail_a.Schemas.State.{BlockedSenderState, ChangeSet}
use google_workspace_gmail_a.Schemas.Compliance.{
  ContentComplianceState, ManagedContentComplianceRule,
}
use google_workspace_gmail_a.Schemas.Equality.{
  ManagedAddressList-discrete, ManagedBlockedSenderRule-discrete,
  ManagedContentComplianceRule-discrete,
}

-- the three tuples that `_partition` returns
pub record Partition {ℓ} (R : Type ℓ) : Type ℓ where
  pub created : List R
  pub updated : List R
  pub removed : List R

-- `_partition`
unfoldable pub partition {ℓ} : {R : Type ℓ} → Discrete R → (R → ℕ) → List R → List R → Partition R
partition equal identity current desired =
    let current_by_id = index_by identity current in
    let desired_by_id = index_by identity desired in
    record {
      created = gather desired_by_id (ids_only_in desired_by_id current_by_id);
      updated = gather desired_by_id (ids_changed equal current_by_id desired_by_id);
      removed = gather current_by_id (ids_only_in current_by_id desired_by_id);
    }

-- `calculate_change_set`
unfoldable pub calculate_change_set : BlockedSenderState → BlockedSenderState → ChangeSet
unfolding partition
calculate_change_set current desired =
    let rules =
      partition ManagedBlockedSenderRule-discrete (λ r. r.ownership_id) current.rules
        desired.rules in
    let lists =
      partition ManagedAddressList-discrete (λ l. l.ownership_id) current.address_lists
        desired.address_lists in
    record {
      before_state = current;
      expected_after = desired;
      rules_to_create = rules.created;
      rules_to_update = rules.updated;
      rules_to_remove = rules.removed;
      address_lists_to_create = lists.created;
      address_lists_to_update = lists.updated;
      address_lists_to_remove = lists.removed;
    }

pub record ComplianceChangeSet : Type 0 where
  pub before_state : ContentComplianceState
  pub expected_after : ContentComplianceState
  pub rules_to_create : List ManagedContentComplianceRule
  pub rules_to_update : List ManagedContentComplianceRule
  pub rules_to_remove : List ManagedContentComplianceRule

-- `calculate_compliance_change_set`
unfoldable pub calculate_compliance_change_set :
    ContentComplianceState → ContentComplianceState → ComplianceChangeSet
unfolding partition
calculate_compliance_change_set current desired =
    let rules =
      partition ManagedContentComplianceRule-discrete (λ r. r.ownership_id) current.rules
        desired.rules in
    record {
      before_state = current;
      expected_after = desired;
      rules_to_create = rules.created;
      rules_to_update = rules.updated;
      rules_to_remove = rules.removed;
    }

-- `ComplianceChangeSet.has_mutations`
unfoldable pub has_rule_mutations : ComplianceChangeSet → Bool
has_rule_mutations c =
    any (λ b. b)
      (not (is_empty c.rules_to_create)
        ∷ not (is_empty c.rules_to_update)
        ∷ not (is_empty c.rules_to_remove)
        ∷ [])
