-- ===== src/Diff/Tests.antt =====
-- The change sets of domain/diff.py at concrete states.
use google_workspace_gmail_a.Common.{true, false, List, [], ◌∷◌, ◌≡◌, ◌↔◌, lookup, index_by}
use google_workspace_gmail_a.Schemas.Resources.{ManagedBlockedSenderRule}
use google_workspace_gmail_a.Schemas.State.{BlockedSenderState, has_mutations}
use google_workspace_gmail_a.Schemas.Equality.{ManagedBlockedSenderRule-discrete}
use google_workspace_gmail_a.Diff.{partition, calculate_change_set}
use google_workspace_gmail_a.Diff.Patch.{patch}
use google_workspace_gmail_a.Diff.Exact.{patch-partition}
use google_workspace_gmail_a.Diff.Changes.{IsSameContent, has_mutations-calculate_change_set}
use google_workspace_gmail_a.DesiredState.Tests.{rule_of, rule1, rule2, observed}

-- Rule one is switched off, rule two is removed, rule three is new.
abbrev wanted : List ManagedBlockedSenderRule
wanted =
    rule_of 1 "[M] rule one" "[M] list one" [] false
    ∷ rule_of 3 "[M] rule three" "[M] list one" [] true
    ∷ []

abbrev wanted_state : BlockedSenderState
wanted_state = record observed { rules = wanted }

patch-partition_example :
    lookup 3 (
      patch
        (λ r. r.ownership_id)
        (partition ManagedBlockedSenderRule-discrete
          (λ r. r.ownership_id)
          (rule2 ∷ rule1 ∷ [])
          wanted)
        (index_by (λ r. r.ownership_id) (rule2 ∷ rule1 ∷ [])))
    ≡ lookup 3 (index_by (λ r. r.ownership_id) wanted)
patch-partition_example =
    patch-partition ManagedBlockedSenderRule-discrete (λ r. r.ownership_id) (rule2 ∷ rule1 ∷ [])
      wanted 3

has_mutations-calculate_change_set_example :
    (has_mutations (calculate_change_set observed wanted_state) ≡ false)
    ↔ IsSameContent observed wanted_state
has_mutations-calculate_change_set_example =
    has_mutations-calculate_change_set observed wanted_state
